-- ===== src/Store/Tasks/Steps.antt =====
-- The items that a step of a method can leave: those that were there, and items with a token that the
-- method has drawn before or draws in the step.
use ousagi.Commands.{Command}
use ousagi.Prelude.{
  ℕ, ◌+◌, ◌^◌, ◌≤◌, ◌<◌, ◌≡◌, refl, ◌⊎◌, inl, inr, Option, none, some, [], ◌∷◌, Bytes, arith,
}
use ousagi.Store.Cache.{Cache}
use ousagi.Store.Inner.{Store, settle}
use ousagi.Store.Items.{Item}
use ousagi.Store.ReadTokens.{get_key-Advances, touch_key-Advances}
use ousagi.Store.Tasks.{
  Task, idle, reading, touch_reading, storing, deleting, counting, touching, flushing, reporting,
  finished, begin, resume,
}
use ousagi.Store.Tasks.Marks.{Marked, entry-Marked, store_op-Marked, store_op-next}
use ousagi.Store.Tokens.{flush_delay-Advances, remove-Advances, finish_delete-same}
use ousagi.Store.Updates.{arithmetic_closure, touch_closure, finish_arithmetic, finish_touch}
use ousagi.Store.Versions.{find_item, Advances}
use ousagi.Store.WriteTokens.{finish_arithmetic-same, finish_touch-same}

-- The token that a task has drawn and not yet used.
abbrev pub token_of : Task → Option ℕ
token_of (storing _ _ _ _ token) = some token
token_of (counting _ _ _ _ _ token) = some token
token_of (touching _ _ _ _ token) = some token
token_of _ = none

module _ (C : Cache) where
  pub record Keeps (drawn : Option ℕ) (s s' : Store C) : Type 0 where
    pub mono : s.next_cas ≤ s'.next_cas
    pub fresh :
        (j : Bytes) (i : Item)
        → find_item C s' j ≡ some i
        → (find_item C s j ≡ some i)
          ⊎ ((drawn ≡ some i.cas) ⊎ ((s.next_cas ≤ i.cas) × (i.cas < s'.next_cas)))

  Advances-Keeps : {drawn : Option ℕ} {s s' : Store C} → Advances C s s' → Keeps drawn s s'
  Advances-Keeps {drawn} {s} {s'} a = record {
    mono = a.mono;
    fresh = λ j i h. elim (a.fresh j i h) [ inl old ↦ inl old | inr new ↦ inr (inr new) ];
  }

  Marked-Keeps :
      {token : ℕ} {s s' : Store C}
      → Marked C token s s'
      → s'.next_cas ≡ s.next_cas
      → Keeps (some token) s s'
  Marked-Keeps {token} {s} {s'} a same = record {
    mono = omega (arith, same);
    fresh = λ j i h. elim (a.fresh j i h) [
      | inl old ↦ inl old
      | inr new ↦ inr (inl (ground (arith, new)))
    ];
  }

  same-Keeps :
      {drawn : Option ℕ} {s s' : Store C}
      → s'.items ≡ s.items
      → s'.next_cas ≡ s.next_cas
      → Keeps drawn s s'
  same-Keeps {drawn} {s} {s'} e n = record {
    mono = omega (arith, n);
    fresh = λ j i h. inl (rw e at h);
  }

  pub resume-Keeps :
      (task : Task) (s : Store C)
      → s.next_cas + 1 < 2 ^ 64
      → Keeps (token_of task) s (resume C task s).1 × (token_of (resume C task s).0 ≡ none)
  unfolding resume
  resume-Keeps idle s fits = (same-Keeps refl refl, refl)
  resume-Keeps (reading with_cas now point [] values) s fits = (same-Keeps refl refl, refl)
  resume-Keeps (reading with_cas now point (key ∷ keys) values) s fits =
      (Advances-Keeps (get_key-Advances C with_cas now point key values s), refl)
  resume-Keeps (touch_reading with_cas exptime now point [] values) s fits =
      (same-Keeps refl refl, refl)
  resume-Keeps (touch_reading with_cas exptime now point (key ∷ keys) values) s fits =
      (Advances-Keeps (touch_key-Advances C with_cas exptime now point key values s fits).0, refl)
  resume-Keeps (storing op args now point token) s fits = (
    Marked-Keeps (store_op-Marked C op args now point token s)
        (store_op-next C op args now point token s),
    refl,
  )
  resume-Keeps (deleting key now point) s fits =
      let (taken, items) = C.remove s.items key in
      let same = finish_delete-same C taken now point (record s { items = items }) in
      (Advances-Keeps (remove-Advances C key s _ same.0 same.1), refl)
  resume-Keeps (counting op key delta now point token) s fits =
      let f = arithmetic_closure op delta now point token in
      let e = C.entry f s.items key tt in
      let t = settle C e.evicted e.cache s in
      let (items, next) = finish_arithmetic-same C op e.result t in
      (
        Marked-Keeps
            (entry-Marked C f key token s (finish_arithmetic C op e.result t).1 items
              λ i. unfold arithmetic_closure in ground arith)
            next,
        refl,
      )
  resume-Keeps (touching key exptime now point token) s fits =
      let f = touch_closure exptime now point token in
      let e = C.entry f s.items key tt in
      let t = settle C e.evicted e.cache s in
      let (items, next) = finish_touch-same C e.result t in
      (
        Marked-Keeps
            (entry-Marked C f key token s (finish_touch C e.result t).1 items
              λ i. unfold touch_closure in ground arith)
            next,
        refl,
      )
  resume-Keeps (flushing delay) s fits = (Advances-Keeps (flush_delay-Advances C delay s), refl)
  resume-Keeps reporting s fits = (same-Keeps refl refl, refl)
  resume-Keeps (finished resp) s fits = (same-Keeps refl refl, refl)

  -- A command begins with at most one token, drawn from the counter; the items are left alone.
  pub begin-token :
      (c : Command) (s : Store C)
      → s.next_cas + 1 < 2 ^ 64
      → ((begin C c s).1.items ≡ s.items)
        × (((token_of (begin C c s).0 ≡ none) × ((begin C c s).1.next_cas ≡ s.next_cas))
            ⊎ ((token_of (begin C c s).0 ≡ some s.next_cas)
                × ((begin C c s).1.next_cas ≡ s.next_cas + 1)))
  unfolding begin
  begin-token (Command.get keys with_cas) s fits = (refl, inl (refl, refl))
  begin-token (Command.get_and_touch keys exptime with_cas) s fits = (refl, inl (refl, refl))
  begin-token (Command.store op args) s fits = (refl, inr (refl, omega arith))
  begin-token (Command.delete key _) s fits = (refl, inl (refl, refl))
  begin-token (Command.arithmetic op key delta _) s fits = (refl, inr (refl, omega arith))
  begin-token (Command.touch key exptime _) s fits = (refl, inr (refl, omega arith))
  begin-token (Command.flush_all delay _) s fits = (refl, inl (refl, refl))
  begin-token Command.version s fits = (refl, inl (refl, refl))
  begin-token (Command.verbosity _ _) s fits = (refl, inl (refl, refl))
  begin-token Command.stats s fits = (refl, inl (refl, refl))
