-- ===== src/Store/Effects.antt =====
-- `delete`, `incr`, `decr` and `touch` against their outcomes.
use ousagi.Commands.{ArithmeticOp, incr, decr, Response, deleted, not_found, touched}
use ousagi.Prelude.{
  ℕ, ◌+◌, ◌-◌, ◌%◌, ◌^◌, ltb, if◌then◌else◌, ◌≡◌, refl, sym, ap, ◌∙◌, inr, Option, none, some,
  Bytes, ℤ, Result, ok, err, String, arith,
}
use ousagi.Stats.{cmd_set, cmd_touch, total_items}
use ousagi.Store.Cache.{Cache, EntryResult, retained, removed, vacant, run_entry}
use ousagi.Store.Inner.{Store, next_cas, count, cutoff}
use ousagi.Store.Items.{Item, resolve_expiry}
use ousagi.Store.Updates.{
  counters, arithmetic_closure, touch_closure, finish_arithmetic, arithmetic, finish_touch, touch,
}
use ousagi.Stats
use ousagi.Store.View.{
  Quiet, kept-view, evicted_so_far, live, view, live_at, Implements, Settles-view, entry-Implements,
}
use ousagi.Store.Writes.{finish_delete, delete}
use ousagi.Text.{to_string, from_utf8, trim, parse_u64}

-- The `u64` that data is the text of, white space around it left out.
abbrev number_of : Bytes → Option ℕ
number_of payload = elim (from_utf8 payload) [ none ↦ none | some s ↦ parse_u64 (trim s) ]

-- `incr` goes on at 0 behind the largest `u64`, `decr` stops at 0.
abbrev changed : ArithmeticOp → ℕ → ℕ → ℕ
changed incr val delta = (val + delta) % 2 ^ 64
changed decr val delta = if ltb val delta then 0 else val - delta

abbrev refusal : ArithmeticOp → String
refusal incr = "cannot increment non-numeric value"
refusal decr = "cannot decrement non-numeric value"

abbrev pub arithmetic_outcome : ArithmeticOp → ℕ → ℕ → Option Item → Response × Option Item
arithmetic_outcome op delta token none = (not_found, none)
arithmetic_outcome op delta token (some i) = elim (number_of i.payload) [
  | none ↦ (Response.client_error (refusal op), some i)
  | some val ↦
      let new_val = changed op val delta in
      (Response.number new_val, some (record i { payload = to_string new_val; cas = token }))
]

abbrev pub touch_outcome : ℤ → ℕ → ℕ → Option Item → Response × Option Item
touch_outcome exptime now token none = (not_found, none)
touch_outcome exptime now token (some i) =
    (touched, some (record i { expires_at = resolve_expiry exptime now; cas = token }))

abbrev pub delete_outcome : Option Item → Response × Option Item
delete_outcome none = (not_found, none)
delete_outcome (some i) = (deleted, none)

module _ (C : Cache) (now : ℕ) (oldest_live : Option ℕ) (token : ℕ) (key : Bytes)
    (o : Option Item) where
  arithmetic_answer :
      (op : ArithmeticOp) (delta : ℕ) (t : Store C)
      → (finish_arithmetic C op
          (run_entry (arithmetic_closure op delta now oldest_live token) o key tt).0
          t).0
        ≡ (arithmetic_outcome op delta token (live now oldest_live o)).0
  unfolding arithmetic_closure finish_arithmetic
  arithmetic_answer op delta t = ground arith

  arithmetic_item :
      (op : ArithmeticOp) (delta : ℕ)
      → live now oldest_live
          (run_entry (arithmetic_closure op delta now oldest_live token) o key tt).2
        ≡ live now oldest_live (arithmetic_outcome op delta token (live now oldest_live o)).1
  unfolding arithmetic_closure
  arithmetic_item op delta = ground arith

  touch_answer :
      (exptime : ℤ) (t : Store C)
      → (finish_touch C (run_entry (touch_closure exptime now oldest_live token) o key tt).0 t).0
        ≡ (touch_outcome exptime now token (live now oldest_live o)).0
  unfolding touch_closure finish_touch
  touch_answer exptime t = ground arith

  touch_item :
      (exptime : ℤ)
      → live now oldest_live (run_entry (touch_closure exptime now oldest_live token) o key tt).2
        ≡ live now oldest_live (touch_outcome exptime now token (live now oldest_live o)).1
  unfolding touch_closure
  touch_item exptime = ground arith

module _ (C : Cache) where
  finish_arithmetic-Quiet :
      (op : ArithmeticOp) (r : EntryResult (Result String ℕ)) (t : Store C)
      → Quiet C t (finish_arithmetic C op r t).1
  unfolding finish_arithmetic Stats.add
  finish_arithmetic-Quiet incr (retained (ok _)) t = ((λ j. refl), refl)
  finish_arithmetic-Quiet decr (retained (ok _)) t = ((λ j. refl), refl)
  finish_arithmetic-Quiet op (retained (err _)) t = ((λ j. refl), refl)
  finish_arithmetic-Quiet incr (removed _ _) t = ((λ j. refl), refl)
  finish_arithmetic-Quiet decr (removed _ _) t = ((λ j. refl), refl)
  finish_arithmetic-Quiet incr vacant t = ((λ j. refl), refl)
  finish_arithmetic-Quiet decr vacant t = ((λ j. refl), refl)

  finish_touch-Quiet : (r : EntryResult (Unit {0})) (t : Store C) → Quiet C t (finish_touch C r t).1
  unfolding finish_touch Stats.add
  finish_touch-Quiet (retained _) t = ((λ j. refl), refl)
  finish_touch-Quiet (removed _ _) t = ((λ j. refl), refl)
  finish_touch-Quiet vacant t = ((λ j. refl), refl)

  -- The counter of the commands is none of evictions.
  counters-evictions :
      (op : ArithmeticOp) (s : Store C)
      → evicted_so_far (count C (counters op).0 1 s).stats ≡ evicted_so_far s.stats
  unfolding Stats.add
  counters-evictions incr s = refl
  counters-evictions decr s = refl

  -- The response of `incr` and `decr` and the live item under the key are those of the outcome on
  -- the live item before it: the `u64` that its data is the text of, but for white space around
  -- it, with the delta added modulo 2^64 by `incr` and subtracted by `decr`, down to 0, and
  -- written back with a new token; or the error of the command if the data is no such text; the
  -- live items under other keys stay; an item may be missing instead if the cache evicts, and
  -- none is if no eviction was counted.
  pub arithmetic-Implements :
      (op : ArithmeticOp) (key : Bytes) (delta : ℕ) (s : Store C)
      → Implements C key s
          (arithmetic C op key delta s)
          (arithmetic_outcome op delta s.next_cas (view C s key))
  unfolding arithmetic
  arithmetic-Implements op key delta s =
      let drawn = (next_cas C (count C (counters op).0 1 s)).1 in
      let o = C.find s.items key in
      let x =
        entry-Implements C _ key drawn (finish_arithmetic C op) _ (finish_arithmetic-Quiet op _)
          (arithmetic_answer C s.shared_clock (cutoff s.oldest_live) s.next_cas key o op delta)
          (arithmetic_item C s.shared_clock (cutoff s.oldest_live) s.next_cas key o op delta) in
      record {
        answers = x.answers;
        views = x.views;
        keeps = λ same. x.keeps (same ∙ sym (counters-evictions op s));
      }

  -- The response of `touch` and the live item under the key are those of the outcome on the live
  -- item before it: a new expiry and a new token; the live items under other keys stay; an item
  -- may be missing instead if the cache evicts, and none is if no eviction was counted.
  pub touch-Implements :
      (key : Bytes) (exptime : ℤ) (s : Store C)
      → Implements C key s
          (touch C key exptime s)
          (touch_outcome exptime s.shared_clock s.next_cas (view C s key))
  unfolding touch
  touch-Implements key exptime s =
      let drawn = count C cmd_touch 1 (next_cas C s).1 in
      let o = C.find s.items key in
      let x =
        entry-Implements C _ key drawn (finish_touch C) _ (finish_touch-Quiet _)
          (touch_answer C s.shared_clock (cutoff s.oldest_live) s.next_cas key o exptime)
          (touch_item C s.shared_clock (cutoff s.oldest_live) s.next_cas key o exptime) in
      record {
        answers = x.answers;
        views = x.views;
        keeps = λ same. x.keeps (unfold Stats.add in same);
      }

  finish_delete-view :
      (taken : Option (Bytes × Item)) (now : ℕ) (oldest_live : Option ℕ) (t : Store C) (j : Bytes)
      → view C (finish_delete C taken now oldest_live t).1 j ≡ view C t j
  unfolding finish_delete
  finish_delete-view none now oldest_live t j = refl
  finish_delete-view (some (_, i)) now oldest_live t j = ground arith

  abbrev taken_item : Bytes → Option Item → Option (Bytes × Item)
  taken_item key o = elim o [ none ↦ none | some i ↦ some (key, i) ]

  delete_answer :
      (key : Bytes) (o : Option Item) (now : ℕ) (oldest_live : Option ℕ) (t : Store C)
      → (finish_delete C (taken_item key o) now oldest_live t).0
        ≡ (delete_outcome (live now oldest_live o)).0
  unfolding finish_delete
  delete_answer key o now oldest_live t = ground arith

  delete_item : (o : Option Item) → (delete_outcome o).1 ≡ none
  delete_item none = refl
  delete_item (some i) = refl

  -- `delete` answers whether there was a live item under the key, after it there is none, and the
  -- live items under other keys stay; an item may be missing instead if the cache evicts, and
  -- none is if no eviction was counted.
  pub delete-Implements :
      (key : Bytes) (s : Store C)
      → Implements C key s (delete C key s) (delete_outcome (view C s key))
  unfolding delete
  delete-Implements key s =
      let now = s.shared_clock in
      let oldest_live = cutoff s.oldest_live in
      let (taken, items) = C.remove s.items key in
      let t = record s { items = items } in
      record {
        answers =
            ap (λ x. (finish_delete C x now oldest_live t).0) (C.remove-result s.items key)
            ∙ delete_answer key (C.find s.items key) now oldest_live t;
        views = λ j. rw (finish_delete-view taken now oldest_live t j) (
            Settles-view C key s t none (delete_outcome (view C s key)).1 refl refl
              (sym (ap (live_at C s) (delete_item (view C s key)))) j
              (inr (C.find-remove s.items key j)));
        keeps = λ _ j.
            finish_delete-view taken now oldest_live t j
            ∙ kept-view C key s t none (delete_outcome (view C s key)).1 refl refl
                (sym (ap (live_at C s) (delete_item (view C s key)))) j
                (C.find-remove s.items key j);
      }
