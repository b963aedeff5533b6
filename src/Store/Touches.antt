-- ===== src/Store/Touches.antt =====
-- What `Store::get_and_touch` answers and leaves: its keys are touched one after the other.
use mathlib.Core.List.{append-nil, append_assoc}
use mathlib.Core.Path.{fun_ext}
use ousagi.Commands.{Value, Response}
use ousagi.Prelude.{
  ℕ, ◌+◌, ◌≤◌, ◌≡◌, refl, sym, ap, ◌∙◌, Bool, Option, none, some, List, [], ◌∷◌, ◌++◌, Bytes, ℤ,
  length, arith,
}
use ousagi.Stats.{evictions, cmd_get, add}
use ousagi.Store.Cache.{Cache, EntryResult, retained, removed, vacant, run_entry, updated}
use ousagi.Store.Hits.{record_read-evictions}
use ousagi.Store.Inner.{Store, count, settle, cutoff}
use ousagi.Store.Items.{Item, resolve_expiry, add_u64}
use ousagi.Store.Reads.{
  Read, read_item, value_of, touch_read_closure, record_read, touch_key, touch_keys, get_and_touch,
}
use ousagi.Store.ReadTokens.{record_read-same}
use ousagi.Store.View.{evicted_so_far, on_evict-evictions, length-zero, live, live-updated, view}

module _ (with_cas : Bool) (exptime : ℤ) (now : ℕ) (oldest_live : Option ℕ) where
  -- A live item with a new expiry and the token `c`.
  abbrev touched : ℕ → Item → Item
  touched c i = record i { expires_at = resolve_expiry exptime now; cas = c }

  abbrev touch_value : ℕ → Bytes → Option Item → List Value
  touch_value c key none = []
  touch_value c key (some i) = value_of with_cas key (read_item (touched c i)) ∷ []

  abbrev next_token : ℕ → Option Item → ℕ
  next_token c none = c
  next_token c (some i) = add_u64 c 1

  -- An expiry in the past leaves an item that is not live.
  abbrev touch_item : ℕ → Option Item → Option Item
  touch_item c none = none
  touch_item c (some i) = live now oldest_live (some (touched c i))

  -- The values of the keys, the next token, and the live items that are left.
  abbrev pub touches :
      List Bytes → ℕ → (Bytes → Option Item) → List Value × ℕ × (Bytes → Option Item)
  touches [] c see = ([], c, see)
  touches (key ∷ keys) c see =
      let (values, c', see') =
        touches keys (next_token c (see key)) (updated key (touch_item c (see key)) see) in
      (touch_value c key (see key) ++ values, c', see')

  module _ (C : Cache) where
    abbrev seen : Store C → Bytes → Option Item
    seen s j = live now oldest_live (C.find s.items j)

    read_value :
        (key : Bytes) (c : ℕ) (o : Option Item) (values : List Value) (t : Store C)
        → (record_read C with_cas key
            (run_entry (touch_read_closure exptime now oldest_live) o key c).0
            values
            t).0
          ≡ values ++ touch_value c key (live now oldest_live o)
    unfolding record_read touch_read_closure
    read_value key c none values t = rw append-nil
    read_value key c (some i) values t = ground (arith, append-nil values)

    run_entry-token :
        (key : Bytes) (c : ℕ) (o : Option Item)
        → (run_entry (touch_read_closure exptime now oldest_live) o key c).1
          ≡ next_token c (live now oldest_live o)
    unfolding touch_read_closure
    run_entry-token key c none = refl
    run_entry-token key c (some i) = ground arith

    run_entry-touched :
        (key : Bytes) (c : ℕ) (o : Option Item)
        → live now oldest_live (run_entry (touch_read_closure exptime now oldest_live) o key c).2
          ≡ touch_item c (live now oldest_live o)
    unfolding touch_read_closure
    run_entry-touched key c none = refl
    run_entry-touched key c (some i) = ground arith

    touch_key-value :
        (key : Bytes) (values : List Value) (s : Store C)
        → (touch_key C with_cas exptime now oldest_live key values s).0
          ≡ values ++ touch_value s.next_cas key (seen s key)
    unfolding touch_key
    touch_key-value key values s =
        let f = touch_read_closure exptime now oldest_live in
        let e = C.entry f s.items key s.next_cas in
        let moved = record (settle C e.evicted e.cache s) { next_cas = e.captured } in
        ap (λ r. (record_read C with_cas key r values moved).0)
          (C.entry-result f s.items key s.next_cas)
        ∙ read_value key s.next_cas (C.find s.items key) values moved

    touch_key-token :
        (key : Bytes) (values : List Value) (s : Store C)
        → (touch_key C with_cas exptime now oldest_live key values s).1.next_cas
          ≡ next_token s.next_cas (seen s key)
    unfolding touch_key
    touch_key-token key values s =
        (record_read-same C with_cas key _ values _).1
        ∙ C.entry-captured (touch_read_closure exptime now oldest_live) s.items key s.next_cas
        ∙ run_entry-token key s.next_cas (C.find s.items key)

    touch_key-evictions :
        (key : Bytes) (values : List Value) (s : Store C)
        → (touch_key C with_cas exptime now oldest_live key values s).1.stats evictions
          ≡ s.stats evictions
            + length
                (C.entry
                  (touch_read_closure exptime now oldest_live)
                  s.items
                  key
                  s.next_cas).evicted
    unfolding touch_key
    touch_key-evictions key values s =
        record_read-evictions C with_cas now oldest_live key _ values _ ∙ on_evict-evictions _ _

    touch_key-seen :
        (key : Bytes) (values : List Value) (s : Store C)
        → (C.entry (touch_read_closure exptime now oldest_live) s.items key s.next_cas).evicted ≡ []
        → (j : Bytes)
        → seen (touch_key C with_cas exptime now oldest_live key values s).1 j
          ≡ updated key (touch_item s.next_cas (seen s key)) (seen s) j
    unfolding touch_key
    touch_key-seen key values s h j =
        let f = touch_read_closure exptime now oldest_live in
        let o = (run_entry f (C.find s.items key) key s.next_cas).2 in
        ap (λ items. live now oldest_live (C.find items j))
          (record_read-same C with_cas key _ values _).0
        ∙ ap (live now oldest_live) (C.find-entry_kept f s.items key s.next_cas j h)
        ∙ live-updated now oldest_live key o (C.find s.items) j
        ∙ ap (λ i. updated key i (seen s) j) (run_entry-touched key s.next_cas (C.find s.items key))

    touch_key-clock :
        (key : Bytes) (values : List Value) (s : Store C)
        → ((touch_key C with_cas exptime now oldest_live key values s).1.shared_clock
            ≡ s.shared_clock)
          × ((touch_key C with_cas exptime now oldest_live key values s).1.oldest_live
              ≡ s.oldest_live)
    unfolding touch_key
    touch_key-clock key values s = record_read-clock _ _
      where
        record_read-clock :
            (r : EntryResult Read) (t : Store C)
            → ((record_read C with_cas key r values t).1.shared_clock ≡ t.shared_clock)
              × ((record_read C with_cas key r values t).1.oldest_live ≡ t.oldest_live)
        record_read-clock (retained _) t = (refl, refl)
        record_read-clock (removed _ _) t = (refl, refl)
        record_read-clock vacant t = (refl, refl)

    touch_keys-evictions :
        (keys : List Bytes) (values : List Value) (s : Store C)
        → s.stats evictions
          ≤ (touch_keys C with_cas exptime now oldest_live keys values s).1.stats evictions
    unfolding touch_keys
    touch_keys-evictions [] values s = omega arith
    touch_keys-evictions (key ∷ keys) values s =
        let (values', s') = touch_key C with_cas exptime now oldest_live key values s in
        omega (arith, touch_keys-evictions keys values' s', touch_key-evictions key values s)

    -- With no eviction on the way the loop does what `touches` says.
    record Touched (keys : List Bytes) (values : List Value) (s : Store C)
        (out : List Value × Store C) : Type 0 where
      answers : out.0 ≡ values ++ (touches keys s.next_cas (seen s)).0
      token : out.1.next_cas ≡ (touches keys s.next_cas (seen s)).1
      leaves : seen out.1 ≡ (touches keys s.next_cas (seen s)).2
      clock : out.1.shared_clock ≡ s.shared_clock
      point : out.1.oldest_live ≡ s.oldest_live

    touch_keys-Touched :
        (keys : List Bytes) (values : List Value) (s : Store C)
        → (touch_keys C with_cas exptime now oldest_live keys values s).1.stats evictions
          ≡ s.stats evictions
        → Touched keys values s (touch_keys C with_cas exptime now oldest_live keys values s)
    unfolding touch_keys
    touch_keys-Touched [] values s h = record {
      answers = sym (append-nil values);
      token = refl;
      leaves = refl;
      clock = refl;
      point = refl;
    }
    touch_keys-Touched (key ∷ keys) values s h =
        let (values', s') = touch_key C with_cas exptime now oldest_live key values s in
        let evicted =
          (C.entry (touch_read_closure exptime now oldest_live) s.items key s.next_cas).evicted in
        let here = touch_key-evictions key values s in
        let later = touch_keys-evictions keys values' s' in
        let none_here : length evicted ≡ 0 = omega (arith, h, later, here) in
        let rest = touch_keys-Touched keys values' s' (omega (arith, h, later, here)) in
        let same = fun_ext (touch_key-seen key values s (length-zero evicted none_here)) in
        let drawn = touch_key-token key values s in
        let (clock, point) = touch_key-clock key values s in
        record {
          answers =
              rest.answers
              ∙ rw (same, drawn, touch_key-value key values s)
                  (append_assoc values (touch_value s.next_cas key (seen s key)) _);
          token = rest.token ∙ rw (same, drawn);
          leaves = rest.leaves ∙ rw (same, drawn);
          clock = rest.clock ∙ clock;
          point = rest.point ∙ point;
        }

module _ (C : Cache) where
  -- If no eviction was counted during a `get_and_touch`, it touches its keys one after the other:
  -- each live item gets the new expiry and the next token and is answered with it, an expiry in
  -- the past leaves no live item, and the response, the next token and the live items under all
  -- keys are the ones that follow.
  pub get_and_touch-touches :
      (keys : List Bytes) (exptime : ℤ) (with_cas : Bool) (s : Store C)
      → evicted_so_far (get_and_touch C keys exptime with_cas s).1.stats ≡ evicted_so_far s.stats
      → (let (values, token, see) =
            touches with_cas exptime s.shared_clock
              (cutoff s.oldest_live)
              keys
              s.next_cas
              (view C s) in
          ((get_and_touch C keys exptime with_cas s).0 ≡ Response.values values)
          × ((get_and_touch C keys exptime with_cas s).1.next_cas ≡ token)
          × (view C (get_and_touch C keys exptime with_cas s).1 ≡ see))
  unfolding get_and_touch
  get_and_touch-touches keys exptime with_cas s h =
      let now = s.shared_clock in
      let point = cutoff s.oldest_live in
      let counted = count C cmd_get (length keys) s in
      let out = touch_keys-Touched with_cas exptime now point C keys [] counted (unfold add in h) in
      let u = (touch_keys C with_cas exptime now point keys [] counted).1 in
      (
        ap Response.values out.answers,
        out.token,
        ap (λ secs. λ (j : Bytes). live secs (cutoff u.oldest_live) (C.find u.items j)) out.clock
            ∙ ap (λ p. λ (j : Bytes). live now (cutoff p) (C.find u.items j)) out.point
            ∙ out.leaves,
      )
