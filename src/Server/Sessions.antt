-- ===== src/Server/Sessions.antt =====
-- How many tasks src/server.rs has, and how many of their sessions have not returned.
use ousagi.Connection.Streams.{Streams}
use ousagi.Prelude.{
  ℕ, zero, suc, ◌+◌, ◌≤◌, ◌<◌, ◌≡◌, ◌≢◌, refl, inl, inr, ◌==◌, ==_iff, arith, Bool-cases,
}
use ousagi.Server.{Session, absent, reading, called, handling, returned}
use ousagi.Store.Tasks.System.{update}

pub update-same {ℓ} : {A : Type ℓ} (n : ℕ) (x : A) (f : ℕ → A) → update n x f n ≡ x
update-same n x f = rw ((==_iff n n).1 refl) refl

-- What holds after a change at one place holds there of the new value, and of the old ones elsewhere.
pub update-cases {ℓ κ} :
    {A : Type ℓ} (P : A → Type κ) (n m : ℕ) (x : A) (f : ℕ → A)
    → (m ≡ n → P x)
    → (m ≢ n → P (f m))
    → P (update n x f m)
update-cases P n m x f at_n other = elim (Bool-cases (m == n)) [
  | inl same ↦ rw same (at_n ((==_iff m n).0 same))
  | inr differ ↦ rw differ (other (λ e. cc (differ, (==_iff m n).1 e)))
]

module _ {A : Type 0} (weigh : A → ℕ) where
  abbrev pub total : (ℕ → A) → ℕ → ℕ
  total f zero = 0
  total f (suc k) = weigh (f k) + total f k

  pub total-update_above :
      (n k : ℕ) (x : A) (f : ℕ → A) → k ≤ n → total (update n x f) k ≡ total f k
  total-update_above n zero x f h = refl
  total-update_above n (suc k) x f h = ground (arith, total-update_above n k x f)

  pub total-update :
      (n k : ℕ) (x : A) (f : ℕ → A)
      → n < k
      → total (update n x f) k + weigh (f n) ≡ total f k + weigh x
  total-update n zero x f h = absurd (omega arith)
  total-update n (suc k) x f h = elim (Bool-cases (k == n)) [
    | inl same ↦
        let is_n : k ≡ n = (==_iff k n).0 same in
        rw same (rw is_n (omega (arith, total-update_above n n x f (omega arith))))
    | inr differ ↦ rw differ (omega (arith, total-update n k x f (ground (arith, ==_iff k n))))
  ]

  -- Where the total is not 0, some value is not.
  pub total_pos : (f : ℕ → A) (k : ℕ) → 0 < total f k → (n : ℕ) × (n < k) × (0 < weigh (f n))
  total_pos f zero h = absurd (omega arith)
  total_pos f (suc k) h = elim (Bool-cases (weigh (f k) == 0)) [
    | inr here ↦ (k, omega arith, ground (arith, ==_iff (weigh (f k)) 0))
    | inl none_here ↦
        let (n, below, more) = total_pos f k (ground (arith, ==_iff (weigh (f k)) 0)) in
        (n, omega (arith, below), more)
  ]

module _ (S : Streams) where
  -- A task holds its permit until it is dropped.
  abbrev pub holds_permit : Session S → ℕ
  holds_permit absent = 0
  holds_permit _ = 1

  abbrev pub is_open : Session S → ℕ
  is_open absent = 0
  is_open (returned _ _) = 0
  is_open _ = 1

  pub is_open-le : (x : Session S) → is_open x ≤ holds_permit x
  is_open-le absent = omega arith
  is_open-le (returned _ _) = omega arith
  is_open-le (reading _) = omega arith
  is_open-le (called _ _) = omega arith
  is_open-le (handling _ _) = omega arith

  pub total-open-le : (f : ℕ → Session S) (k : ℕ) → total is_open f k ≤ total holds_permit f k
  total-open-le f zero = omega arith
  total-open-le f (suc k) = omega (arith, is_open-le (f k), total-open-le f k)
