-- ===== src/Store/Tasks/Alone.antt =====
-- A method that runs with no other in between is that of src/store.rs.
use ousagi.Commands.{Command, Response}
use ousagi.Handler.{handle}
use ousagi.Prelude.{ℕ, zero, suc, ◌≡◌, refl, Bool, Option, List, [], ◌∷◌, Bytes, ℤ, length}
use ousagi.Store.Cache.{Cache}
use ousagi.Store.Inner.{Store}
use ousagi.Store.Reads.{get_key, get_keys, get, touch_key, touch_keys, get_and_touch}
use ousagi.Store.Tasks.{Task, reading, touch_reading, finished, begin, resume}
use ousagi.Store.Updates.{arithmetic, touch, flush}
use ousagi.Store.Writes.{store, delete}
use ousagi.Commands.{Value}

-- How many steps a command takes after its first.
abbrev pub rounds : Command → ℕ
rounds (Command.get keys _) = suc (length keys)
rounds (Command.get_and_touch keys _ _) = suc (length keys)
rounds _ = 1

module _ (C : Cache) where
  unfoldable pub proceed : ℕ → Task × Store C → Task × Store C
  proceed zero x = x
  proceed (suc n) (task, s) = proceed n (resume C task s)

  reading-proceed :
      (with_cas : Bool) (now : ℕ) (point : Option ℕ) (keys : List Bytes) (values : List Value)
      (s : Store C)
      → proceed (suc (length keys)) (reading with_cas now point keys values, s) ≡ (
          let (values', s') = get_keys C with_cas now point keys values s in
          (finished (Response.values values'), s'))
  unfolding proceed resume get_keys
  reading-proceed with_cas now point [] values s = refl
  reading-proceed with_cas now point (key ∷ keys) values s =
      let (values', s') = get_key C with_cas now point key values s in
      reading-proceed with_cas now point keys values' s'

  touch_reading-proceed :
      (with_cas : Bool) (exptime : ℤ) (now : ℕ) (point : Option ℕ) (keys : List Bytes)
      (values : List Value) (s : Store C)
      → proceed (suc (length keys)) (touch_reading with_cas exptime now point keys values, s) ≡ (
          let (values', s') = touch_keys C with_cas exptime now point keys values s in
          (finished (Response.values values'), s'))
  unfolding proceed resume touch_keys
  touch_reading-proceed with_cas exptime now point [] values s = refl
  touch_reading-proceed with_cas exptime now point (key ∷ keys) values s =
      let (values', s') = touch_key C with_cas exptime now point key values s in
      touch_reading-proceed with_cas exptime now point keys values' s'

  -- For every command and state, the steps of its method one after the other, with no other step
  -- between, end with the response and the state of the handler.
  pub proceed-begin :
      (c : Command) (s : Store C)
      → proceed (rounds c) (begin C c s) ≡ (finished (handle C c s).0, (handle C c s).1)
  unfolding proceed begin resume handle get get_and_touch store delete arithmetic touch flush
  proceed-begin (Command.get keys with_cas) s = reading-proceed with_cas _ _ keys [] _
  proceed-begin (Command.get_and_touch keys exptime with_cas) s =
      touch_reading-proceed with_cas exptime _ _ keys [] _
  proceed-begin (Command.store op args) s = refl
  proceed-begin (Command.delete key _) s = refl
  proceed-begin (Command.arithmetic op key delta _) s = refl
  proceed-begin (Command.touch key exptime _) s = refl
  proceed-begin (Command.flush_all delay _) s = refl
  proceed-begin Command.version s = refl
  proceed-begin (Command.verbosity _ _) s = refl
  proceed-begin Command.stats s = refl
