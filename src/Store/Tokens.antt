-- ===== src/Store/Tokens.antt =====
-- Every operation of src/store.rs, and every command, draws new tokens only.
use ousagi.Commands.{Command}
use ousagi.Handler.{handle}
use ousagi.Prelude.{
  ℕ, zero, suc, ◌+◌, ◌^◌, ◌<◌, ◌≡◌, refl, inl, inr, Option, none, some, Bytes, length, arith,
}
use ousagi.Stats.{cmd_flush}
use ousagi.Store.Cache.{Cache}
use ousagi.Store.Inner.{Store, count, cutoff}
use ousagi.Store.Items.{Item}
use ousagi.Store.ReadTokens.{get-Advances, get_and_touch-Advances}
use ousagi.Store.Updates.{flush, flush_delay}
use ousagi.Store.Versions.{Advances, Advances-trans, Advances-same, settled-cases}
use ousagi.Store.WriteTokens.{store-Advances, arithmetic-Advances, touch-Advances}
use ousagi.Store.Writes.{finish_delete, delete}

-- At most how many tokens a command draws.
abbrev pub tokens : Command → ℕ
tokens (Command.get_and_touch keys _ _) = length keys
tokens (Command.store _ _) = 1
tokens (Command.arithmetic _ _ _ _) = 1
tokens (Command.touch _ _ _) = 1
tokens _ = 0

module _ (C : Cache) where
  pub finish_delete-same :
      (taken : Option (Bytes × Item)) (now : ℕ) (oldest_live : Option ℕ) (s : Store C)
      → ((finish_delete C taken now oldest_live s).1.items ≡ s.items)
        × ((finish_delete C taken now oldest_live s).1.next_cas ≡ s.next_cas)
  unfolding finish_delete
  finish_delete-same none now oldest_live s = (refl, refl)
  finish_delete-same (some (_, item)) now oldest_live s = ground arith

  pub remove-Advances :
      (key : Bytes) (s s' : Store C)
      → s'.items ≡ (C.remove s.items key).1
      → s'.next_cas ≡ s.next_cas
      → Advances C s s'
  remove-Advances key s s' e n = record {
    mono = omega arith;
    fresh = λ j i h.
        elim (settled-cases key j none (C.find s.items) {i = i} (inr (C.find-remove s.items key j))
          (rw e at h)) [ inl (_, stored) ↦ cc | inr kept ↦ inl kept ];
  }

  pub delete-Advances : (key : Bytes) (s : Store C) → Advances C s (delete C key s).1
  unfolding delete
  delete-Advances key s =
      let (taken, items) = C.remove s.items key in
      let same =
        finish_delete-same taken s.shared_clock (cutoff s.oldest_live)
          (record s { items = items }) in
      remove-Advances key s _ same.0 same.1

  pub flush_delay-Advances : (delay : Option ℕ) (s : Store C) → Advances C s (flush_delay C delay s)
  unfolding flush_delay
  flush_delay-Advances none s = record {
    mono = omega arith;
    fresh = λ j i h. cc (h, C.find-clear s.items j);
  }
  flush_delay-Advances (some zero) s = record {
    mono = omega arith;
    fresh = λ j i h. cc (h, C.find-clear s.items j);
  }
  flush_delay-Advances (some (suc n)) s = Advances-same C s _ refl (omega arith)

  flush-Advances : (delay : Option ℕ) (s : Store C) → Advances C s (flush C delay s).1
  unfolding flush
  flush-Advances delay s =
      Advances-trans C (Advances-same C s (count C cmd_flush 1 s) refl (omega arith))
        (flush_delay-Advances delay (count C cmd_flush 1 s))

  -- If the tokens that a command draws do not make the counter wrap around, then after the
  -- command the counter is not smaller, and each item found was found under its key before or has
  -- a token drawn by the command.
  pub handle-Advances :
      (c : Command) (s : Store C) → s.next_cas + tokens c < 2 ^ 64 → Advances C s (handle C c s).1
  unfolding handle
  handle-Advances (Command.get keys with_cas) s fits = get-Advances C keys with_cas s
  handle-Advances (Command.get_and_touch keys exptime with_cas) s fits =
      (get_and_touch-Advances C keys exptime with_cas s fits).0
  handle-Advances (Command.store op args) s fits = store-Advances C op args s fits
  handle-Advances (Command.delete key _) s fits = delete-Advances key s
  handle-Advances (Command.arithmetic op key delta _) s fits =
      arithmetic-Advances C op key delta s fits
  handle-Advances (Command.touch key exptime _) s fits = touch-Advances C key exptime s fits
  handle-Advances (Command.flush_all delay _) s fits = flush-Advances delay s
  handle-Advances _ s fits = Advances-same C s s refl (omega arith)
