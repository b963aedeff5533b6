-- ===== src/Connection/Answers.antt =====
-- src/connection.rs: `write_response`.
use ousagi.Commands.{Value, Response}
use ousagi.Connection.Reads.{Connection}
use ousagi.Connection.Streams.{Streams}
use ousagi.Prelude.{ℕ, String, Option, none, some, List, [], ◌∷◌, ◌++◌, Bytes, codes, length}

module _ (S : Streams) where
  abbrev pub written : Connection S → Option S.Writer → Option (Connection S)
  written c none = none
  written c (some writer) = some (record c { writer = writer })

  -- One `write_all` after the other, up to the first that fails.
  unfoldable pub write_parts : List Bytes → Connection S → Option (Connection S)
  write_parts [] c = some c
  write_parts (bs ∷ rest) c = elim (written c (S.write_all bs c.writer)) [
    | none ↦ none
    | some c' ↦ write_parts rest c'
  ]

  abbrev cas_field : Option ℕ → Bytes
  cas_field none = []
  cas_field (some c) = codes " " ++ S.format c

  -- The header of a value, and the value.
  unfoldable pub value_parts : List Value → List Bytes
  value_parts [] = codes "END\r\n" ∷ []
  value_parts ((key, flags, payload, cas) ∷ values) =
      (codes "VALUE "
        ++ key
        ++ codes " "
        ++ S.format flags
        ++ codes " "
        ++ S.format (length payload)
        ++ cas_field cas
        ++ codes "\r\n")
      ∷ payload
      ∷ codes "\r\n"
      ∷ value_parts values

  unfoldable pub stats_parts : List (String × Bytes) → List Bytes
  stats_parts [] = codes "END\r\n" ∷ []
  stats_parts ((name, value) ∷ entries) =
      codes "STAT " ∷ codes name ∷ codes " " ∷ value ∷ codes "\r\n" ∷ stats_parts entries

  -- What is written for a response, in the order of the calls.
  unfoldable pub parts : Response → List Bytes
  unfolding value_parts stats_parts
  parts Response.stored = codes "STORED\r\n" ∷ []
  parts Response.not_stored = codes "NOT_STORED\r\n" ∷ []
  parts Response.deleted = codes "DELETED\r\n" ∷ []
  parts Response.not_found = codes "NOT_FOUND\r\n" ∷ []
  parts Response.exists = codes "EXISTS\r\n" ∷ []
  parts Response.touched = codes "TOUCHED\r\n" ∷ []
  parts (Response.values values) = value_parts values
  parts (Response.number val) = S.format val ∷ codes "\r\n" ∷ []
  parts Response.ok = codes "OK\r\n" ∷ []
  parts (Response.version version) = codes "VERSION " ∷ codes version ∷ codes "\r\n" ∷ []
  parts Response.error = codes "ERROR\r\n" ∷ []
  parts (Response.client_error msg) = codes "CLIENT_ERROR " ∷ codes msg ∷ codes "\r\n" ∷ []
  parts (Response.server_error msg) = codes "SERVER_ERROR " ∷ codes msg ∷ codes "\r\n" ∷ []
  parts (Response.stats entries) = stats_parts entries

  unfoldable pub write_response : Response → Connection S → Option (Connection S)
  unfolding write_parts parts
  write_response resp c = write_parts (parts resp) c
