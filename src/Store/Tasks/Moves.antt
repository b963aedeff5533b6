-- ===== src/Store/Tasks/Moves.antt =====
-- The cas tokens of the connections under src/store.rs: none is held twice, in an item or in a method.
use ousagi.Commands.{Command}
use ousagi.Prelude.{
  ℕ, ◌+◌, ◌^◌, ◌≤◌, ◌<◌, ◌≡◌, ◌≢◌, refl, ◌⊎◌, inl, inr, true, none, some, Bytes, ◌==◌, ==_iff,
  Bool-cases, arith,
}
use ousagi.Stats.{Stats}
use ousagi.Store.Cache.{Cache}
use ousagi.Store.Inner.{Store, new_store}
use ousagi.Store.Items.{Item, weight}
use ousagi.Store.Tasks.{Task, begin, resume}
use ousagi.Store.Tasks.Steps.{token_of, resume-Keeps, begin-token}
use ousagi.Store.Traces.{set_clock}
use ousagi.Store.Versions.{find_item}
use ousagi.Store.Tasks.System.{
  System, step, start, Reach, here, begins, resumes, ticks, counts, is_free,
}

module _ (C : Cache) where
  -- Where the tokens in `y` come from: from the items and the tasks of `x`, or from its counter.
  pub record From (x y : System C) : Type 0 where
    pub mono : x.store.next_cas ≤ y.store.next_cas
    pub drawn :
        (n t : ℕ)
        → token_of (y.tasks n) ≡ some t
        → (token_of (x.tasks n) ≡ some t) ⊎ ((x.store.next_cas ≤ t) × (t < y.store.next_cas))
    pub fresh :
        (j : Bytes) (i : Item)
        → find_item C y.store j ≡ some i
        → (find_item C x.store j ≡ some i)
          ⊎ (((n : ℕ) × (token_of (x.tasks n) ≡ some i.cas))
              ⊎ ((x.store.next_cas ≤ i.cas) × (i.cas < y.store.next_cas)))

  -- No token is held twice.
  pub record Apart (x : System C) : Type 0 where
    pub drawn_below : (n t : ℕ) → token_of (x.tasks n) ≡ some t → t < x.store.next_cas
    pub items_below :
        (j : Bytes) (i : Item) → find_item C x.store j ≡ some i → i.cas < x.store.next_cas
    pub drawn_once :
        (m n t : ℕ) → token_of (x.tasks m) ≡ some t → token_of (x.tasks n) ≡ some t → m ≡ n
    pub unused :
        (j : Bytes) (i : Item) (n : ℕ)
        → find_item C x.store j ≡ some i
        → token_of (x.tasks n) ≢ some i.cas

  -- A step C of connection `n`, as far as tokens go.
  record Moves (n : ℕ) (x y : System C) : Type 0 where
    mono : x.store.next_cas ≤ y.store.next_cas
    others : (m : ℕ) → (m ≡ n) ⊎ ((m ≢ n) × (token_of (y.tasks m) ≡ token_of (x.tasks m)))
    own :
        (token_of (y.tasks n) ≡ none)
        ⊎ ((token_of (y.tasks n) ≡ token_of (x.tasks n))
            ⊎ ((token_of (y.tasks n) ≡ some x.store.next_cas)
                × (x.store.next_cas < y.store.next_cas)))
    fresh :
        (j : Bytes) (i : Item)
        → find_item C y.store j ≡ some i
        → (find_item C x.store j ≡ some i)
          ⊎ ((token_of (y.tasks n) ≡ none)
              × ((token_of (x.tasks n) ≡ some i.cas)
                  ⊎ ((x.store.next_cas ≤ i.cas) × (i.cas < y.store.next_cas))))

  step-others :
      (n : ℕ) (r : Task × Store C) (x : System C) (m : ℕ)
      → (m ≡ n) ⊎ ((m ≢ n) × (token_of ((step C n r x).tasks m) ≡ token_of (x.tasks m)))
  step-others n r x m = elim (Bool-cases (m == n)) [
    | inl same ↦ inl ((==_iff m n).0 same)
    | inr other ↦ inr (λ e. cc (other, (==_iff m n).1 e), rw other refl)
  ]

  step-own : (n : ℕ) (r : Task × Store C) (x : System C) → (step C n r x).tasks n ≡ r.0
  step-own n r x = rw ((==_iff n n).1 refl) refl

  begins-Moves :
      (n : ℕ) (c : Command) (x : System C)
      → x.store.next_cas + 1 < 2 ^ 64
      → is_free (x.tasks n) ≡ true
      → Moves n x (step C n (begin C c x.store) x)
  begins-Moves n c x fits free =
      let (items, token) = begin-token C c x.store fits in
      let own = step-own n (begin C c x.store) x in
      record {
        mono = ground (arith, token);
        others = step-others n (begin C c x.store) x;
        own =
            rw own
              (elim token [ inl (h, _) ↦ inl h | inr (h, k) ↦ inr (inr (h, omega (arith, k))) ]);
        fresh = λ j i h. inl (rw (find_item, items) at h);
      }

  resumes-Moves :
      (n : ℕ) (x : System C)
      → x.store.next_cas + 1 < 2 ^ 64
      → Moves n x (step C n (resume C (x.tasks n) x.store) x)
  resumes-Moves n x fits =
      let (keeps, token) = resume-Keeps C (x.tasks n) x.store fits in
      let own = step-own n (resume C (x.tasks n) x.store) x in
      record {
        mono = keeps.mono;
        others = step-others n (resume C (x.tasks n) x.store) x;
        own = rw own (inl token);
        fresh = λ j i h.
            rw own (elim (keeps.fresh j i h) [ inl old ↦ inl old | inr new ↦ inr (token, new) ]);
      }

  ticks-Moves :
      (secs : ℕ) (x : System C) → Moves 0 x (record x { store = set_clock C secs x.store })
  unfolding set_clock
  ticks-Moves secs x = record {
    mono = omega arith;
    others = λ m. ground arith;
    own = inr (inl refl);
    fresh = λ j i h. inl h;
  }

  counts-Moves :
      (stats : Stats) (x : System C)
      → Moves 0 x (record x { store = record x.store { stats = stats } })
  counts-Moves stats x = record {
    mono = omega arith;
    others = λ m. ground arith;
    own = inr (inl refl);
    fresh = λ j i h. inl h;
  }

  Moves-Apart : (n : ℕ) (x y : System C) → Moves n x y → Apart x → Apart y
  Moves-Apart n x y move apart = record {
    drawn_below =
        λ m t h. ground (arith, move.others m, move.own, move.mono, apart.drawn_below m t, h);
    items_below = λ j i h.
        ground
          (arith, move.fresh j i h, move.mono, apart.items_below j i, apart.drawn_below n i.cas);
    drawn_once = λ a b t h k. ground (
      arith,
      move.others a,
      move.others b,
      move.own,
      apart.drawn_below a t,
      apart.drawn_below b t,
      apart.drawn_once a b t,
    );
    unused = λ j i m h k. ground (
      arith,
      move.others m,
      move.own,
      move.fresh j i h,
      apart.drawn_once m n i.cas,
      apart.drawn_below m i.cas,
      apart.items_below j i,
      apart.unused j i m,
    );
  }

  From-Moves : (n : ℕ) (x y z : System C) → From x y → Moves n y z → From x z
  From-Moves n x y z from move = record {
    mono = omega (arith, from.mono, move.mono);
    drawn = λ m t h. ground (arith, move.others m, move.own, move.mono, from.mono, from.drawn m t);
    fresh = λ j i h. elim (move.fresh j i h) [
      | inl old ↦ elim (from.fresh j i old) [
        | inl older ↦ inl older
        | inr (inl token) ↦ inr (inl token)
        | inr (inr new) ↦ inr (inr (omega (arith, new, move.mono)))
      ]
      | inr (_, inl token) ↦ elim (from.drawn n i.cas token) [
        | inl token ↦ inr (inl (n, token))
        | inr new ↦ inr (inr (omega (arith, new, move.mono)))
      ]
      | inr (_, inr new) ↦ inr (inr (omega (arith, new, from.mono)))
    ];
  }

  pub record Runs (x y : System C) : Type 0 where
    pub from : From x y
    pub apart : Apart y

  Runs-Moves : (n : ℕ) {x y z u : System C} → Moves n y u → z ≡ u → Runs x y → Runs x z
  Runs-Moves n {x} {y} {z} {u} move e runs = rw e (record {
    from = From-Moves n x y u runs.from move;
    apart = Moves-Apart n y u move runs.apart;
  })

  pub Reach-Runs : {x y : System C} → Apart x → Reach C x y → Runs x y
  Reach-Runs {x} apart (here e) = rw e (record {
    from = record { mono = omega arith; drawn = λ n t h. inl h; fresh = λ j i h. inl h };
    apart = apart;
  })
  Reach-Runs apart (begins {y} r n c free fits e) =
      Runs-Moves n (begins-Moves n c y fits free) e (Reach-Runs apart r)
  Reach-Runs apart (resumes {y} r n fits e) =
      Runs-Moves n (resumes-Moves n y fits) e (Reach-Runs apart r)
  Reach-Runs apart (ticks {y} r secs e) = Runs-Moves 0 (ticks-Moves secs y) e (Reach-Runs apart r)
  Reach-Runs apart (counts {y} r stats e) =
      Runs-Moves 0 (counts-Moves stats y) e (Reach-Runs apart r)

  pub start-Apart : (clock limit : ℕ) → Apart (start C clock limit)
  unfolding new_store
  start-Apart clock limit = record {
    drawn_below = λ n t h. cc;
    items_below = λ j i h. cc (h, C.find-with_options limit weight j);
    drawn_once = λ m n t h k. cc;
    unused = λ j i n h k. cc;
  }
