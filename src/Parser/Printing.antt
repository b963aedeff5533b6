-- ===== src/Parser/Printing.antt =====
-- The lines of the commands, as a client may write them, and what src/parser.rs makes of them.
use ousagi.Atoi.{int_to_string}
use ousagi.Commands.{StoreOp, set, add, replace, append, prepend, cas, incr, decr, Command}
use ousagi.Parser.Header.{CommandHeader, immediate, store, quit}
use ousagi.Parser.Keys.{IsKey}
use ousagi.Parser.Lines.{IsWord, join}
use ousagi.Parser.WellFormed.{◌&◌, IsImmediate, IsHeader}
use ousagi.Prelude.{
  ℕ, suc, ◌≡◌, ◌≢◌, refl, Bool, true, false, Option, none, some, List, [], ◌∷◌, ◌++◌, Bytes, codes,
  All, All-map, All-append, ◌==◌, ◌≤◌, ◌&&◌, leb, ℤ, pos, negsuc, arith, if◌then◌else◌,
}
use ousagi.Text.{to_string}
use ousagi.Text.Decimal.{to_string-IsDigit, to_string-ne-nil}

abbrev pub noreply_word : Bool → List Bytes
noreply_word true = codes "noreply" ∷ []
noreply_word false = []

abbrev pub store_verb : StoreOp → Bytes
store_verb set = codes "set"
store_verb add = codes "add"
store_verb replace = codes "replace"
store_verb append = codes "append"
store_verb prepend = codes "prepend"
store_verb cas = codes "cas"

abbrev pub token_word : Option ℕ → List Bytes
token_word none = []
token_word (some token) = to_string token ∷ []

-- A storage command has a header of its own.
abbrev pub command_line : Command → List Bytes
command_line (Command.get keys true) = codes "gets" ∷ keys
command_line (Command.get keys false) = codes "get" ∷ keys
command_line (Command.store _ _) = []
command_line (Command.delete key n) = codes "delete" ∷ key ∷ noreply_word n
command_line (Command.arithmetic incr key delta n) =
    codes "incr" ∷ key ∷ to_string delta ∷ noreply_word n
command_line (Command.arithmetic decr key delta n) =
    codes "decr" ∷ key ∷ to_string delta ∷ noreply_word n
command_line (Command.get_and_touch keys exptime true) = codes "gats" ∷ int_to_string exptime ∷ keys
command_line (Command.get_and_touch keys exptime false) = codes "gat" ∷ int_to_string exptime ∷ keys
command_line (Command.touch key exptime n) =
    codes "touch" ∷ key ∷ int_to_string exptime ∷ noreply_word n
command_line (Command.flush_all none n) = codes "flush_all" ∷ noreply_word n
command_line (Command.flush_all (some delay) n) =
    codes "flush_all" ∷ to_string delay ∷ noreply_word n
command_line Command.version = codes "version" ∷ []
command_line (Command.verbosity level n) = codes "verbosity" ∷ to_string level ∷ noreply_word n
command_line Command.stats = codes "stats" ∷ []

abbrev pub header_words : CommandHeader → List Bytes
header_words (immediate command) = command_line command
header_words (store p) =
    store_verb p.op
    ∷ p.key
    ∷ to_string p.flags
    ∷ int_to_string p.exptime
    ∷ to_string p.len
    ∷ (token_word p.cas ++ noreply_word p.noreply)
header_words quit = codes "quit" ∷ []

-- The words with single spaces.
unfoldable pub print : CommandHeader → Bytes
print h = join (header_words h)

abbrev no_space : Bytes → Bool
no_space [] = true
no_space (b ∷ w) = if b == b' ' then false else no_space w

no_space-All : (w : Bytes) → no_space w ≡ true → All (λ b. b ≢ b' ') w
no_space-All [] h = tt
no_space-All (b ∷ w) h = ground (arith, no_space-All w)

pub literal-IsWord : (b : ℕ) (w : Bytes) → no_space (b ∷ w) ≡ true → IsWord (b ∷ w)
literal-IsWord b w h = (λ e. cc, no_space-All (b ∷ w) h)

pub to_string-IsWord : (n : ℕ) → IsWord (to_string n)
to_string-IsWord n = (
  to_string-ne-nil n,
  All-map (to_string n) (λ b (lo, hi) e. omega (arith, lo, e)) (to_string-IsDigit n),
)

int_to_string-IsWord : (z : ℤ) → IsWord (int_to_string z)
unfolding int_to_string
int_to_string-IsWord (pos n) = to_string-IsWord n
int_to_string-IsWord (negsuc n) = (λ e. cc, (λ e. omega (arith, e), (to_string-IsWord (suc n)).1))

pub key-IsWord : (key : Bytes) → IsKey key → IsWord key
key-IsWord [] h = absurd (omega (arith, h.0))
key-IsWord (b ∷ key) h = (λ e. cc, All-map (b ∷ key) (λ b fits e. omega (arith, fits.0, e)) h.2)

-- Small letters and the underscore.
abbrev pub letters : Bytes → Bool
letters [] = true
letters (b ∷ w) = leb 0x5f b && leb b 0x7a && letters w

pub letters-All : (w : Bytes) → letters w ≡ true → All (λ b. 0x5f ≤ b) w
letters-All [] h = tt
letters-All (b ∷ w) h = ground (arith, letters-All w)

-- What holds of verbs, numbers and keys holds of the words of every line.
module _ (P : Bytes → Type 0) (verb : (b : ℕ) (w : Bytes) → letters (b ∷ w) ≡ true → P (b ∷ w))
    (number : (n : ℕ) → P (to_string n)) (integer : (z : ℤ) → P (int_to_string z))
    (name : (key : Bytes) → IsKey key → P key) where
  names : (keys : List Bytes) → All IsKey keys → All P keys
  names keys h = All-map keys (λ key. name key) h

  noreply_word-All : (n : Bool) → All P (noreply_word n)
  noreply_word-All true = (verb _ _ refl, tt)
  noreply_word-All false = tt

  token_word-All : (token : Option ℕ) → All P (token_word token)
  token_word-All none = tt
  token_word-All (some token) = (number token, tt)

  store_verb-holds : (op : StoreOp) → P (store_verb op)
  store_verb-holds set = verb _ _ refl
  store_verb-holds add = verb _ _ refl
  store_verb-holds replace = verb _ _ refl
  store_verb-holds append = verb _ _ refl
  store_verb-holds prepend = verb _ _ refl
  store_verb-holds cas = verb _ _ refl

  command_line-All : (c : Command) → IsImmediate c → All P (command_line c)
  command_line-All (Command.get keys true) (ne, are) = verb _ _ refl & names keys are
  command_line-All (Command.get keys false) (ne, are) = verb _ _ refl & names keys are
  command_line-All (Command.store _ _) h = tt
  command_line-All (Command.delete key n) h = verb _ _ refl & name key h & noreply_word-All n
  command_line-All (Command.arithmetic incr key delta n) (h, k) =
      verb _ _ refl & name key h & number delta & noreply_word-All n
  command_line-All (Command.arithmetic decr key delta n) (h, k) =
      verb _ _ refl & name key h & number delta & noreply_word-All n
  command_line-All (Command.get_and_touch keys exptime true) (ne, are, z) =
      verb _ _ refl & integer exptime & names keys are
  command_line-All (Command.get_and_touch keys exptime false) (ne, are, z) =
      verb _ _ refl & integer exptime & names keys are
  command_line-All (Command.touch key exptime n) (h, z) =
      verb _ _ refl & name key h & integer exptime & noreply_word-All n
  command_line-All (Command.flush_all none n) h = verb _ _ refl & noreply_word-All n
  command_line-All (Command.flush_all (some delay) n) h =
      verb _ _ refl & number delay & noreply_word-All n
  command_line-All Command.version h = verb _ _ refl & tt
  command_line-All (Command.verbosity level n) h = verb _ _ refl & number level & noreply_word-All n
  command_line-All Command.stats h = verb _ _ refl & tt

  pub header_words-All : (h : CommandHeader) → IsHeader h → All P (header_words h)
  header_words-All (immediate c) h = command_line-All c h
  header_words-All (store p) h =
      store_verb-holds p.op
      & name p.key h.key
      & number p.flags
      & integer p.exptime
      & number p.len
      & All-append P (token_word p.cas) (noreply_word p.noreply) (token_word-All p.cas)
          (noreply_word-All p.noreply)
  header_words-All quit h = verb _ _ refl & tt

letters-IsWord : (b : ℕ) (w : Bytes) → letters (b ∷ w) ≡ true → IsWord (b ∷ w)
letters-IsWord b w h =
    (λ e. cc, All-map (b ∷ w) (λ c lo e. omega (arith, lo, e)) (letters-All (b ∷ w) h))

pub header_words-IsWord : (h : CommandHeader) → IsHeader h → All IsWord (header_words h)
header_words-IsWord h valid =
    header_words-All IsWord letters-IsWord to_string-IsWord int_to_string-IsWord key-IsWord h valid
