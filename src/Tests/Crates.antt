-- ===== src/Tests/Crates.antt =====
-- Small stand-ins for the crates: a cache that is an association list with room for every item, and
-- readers of numbers that take a text whole or not at all.
use ousagi.Atoi.{Atoi, InI64, int_to_string}
use ousagi.Prelude.{
  ℕ, zero, suc, ◌+◌, ◌^◌, ◌<◌, ◌≡◌, refl, ap, inl, inr, true, false, Option, none, some, List, [],
  ◌∷◌, ◌≢◌, All, Bytes, bytes_eq, bytes_eq_iff, length, ℤ, pos, negsuc, ltb, ◌==◌, arith,
  if◌then◌else◌, Bool-cases,
}
use ousagi.Store.Cache.{Cache, run_entry, updated}
use ousagi.Store.Items.{Item}
use ousagi.Text.{to_string, parse_u64, trim}
use ousagi.Text.Decimal.{parse_u64-trim-to_string, to_string-IsDigit, to_string-ne-nil, IsDigit}

abbrev Items : Type 0
Items = List (Bytes × Item)

abbrev find_assoc : Items → Bytes → Option Item
find_assoc [] k = none
find_assoc ((j, i) ∷ l) k = if bytes_eq j k then some i else find_assoc l k

abbrev erase : Bytes → Items → Items
erase k [] = []
erase k ((j, i) ∷ l) = if bytes_eq k j then erase k l else (j, i) ∷ erase k l

abbrev put : Bytes → Option Item → Items → Items
put k none l = erase k l
put k (some i) l = (k, i) ∷ erase k l

pub find_assoc-erase :
    (k : Bytes) (l : Items) (j : Bytes)
    → find_assoc (erase k l) j ≡ (if bytes_eq k j then none else find_assoc l j)
find_assoc-erase k [] j = ground arith
find_assoc-erase k ((x, i) ∷ l) j =
    ground (arith, find_assoc-erase k l j, bytes_eq_iff k x, bytes_eq_iff k j, bytes_eq_iff x j)

pub find_assoc-put :
    (k : Bytes) (o : Option Item) (l : Items) (j : Bytes)
    → find_assoc (put k o l) j ≡ updated k o (find_assoc l) j
find_assoc-put k none l j = find_assoc-erase k l j
find_assoc-put k (some i) l j = ground (arith, find_assoc-erase k l j)

abbrev take_out : Bytes → Option Item → Option (Bytes × Item)
take_out k none = none
take_out k (some i) = some (k, i)

abbrev pub roomy_cache : Cache
roomy_cache = record {
  State = Items;
  with_options = λ _ _. [];
  find = find_assoc;
  entry = λ f c k s.
      let r = run_entry f (find_assoc c k) k s in
      record { result = r.0; captured = r.1; evicted = []; cache = put k r.2 c };
  insert = λ c k i. ([], put k (some i) c);
  guard_insert = λ c k i. (true, [], put k (some i) c);
  remove = λ c k. (take_out k (find_assoc c k), erase k c);
  clear = λ _. [];
  len = length;
  find-with_options = λ _ _ _. refl;
  entry-result = λ _ _ _ _. refl;
  entry-captured = λ _ _ _ _. refl;
  find-entry = λ f c k s j. inr (find_assoc-put k (run_entry f (find_assoc c k) k s).2 c j);
  find-entry_kept = λ f c k s j _. find_assoc-put k (run_entry f (find_assoc c k) k s).2 c j;
  find-insert = λ c k i j. inr (find_assoc-put k (some i) c j);
  find-insert_kept = λ c k i j _. find_assoc-put k (some i) c j;
  find-guard_insert = λ c k i j _. inr (find_assoc-put k (some i) c j);
  find-guard_insert_kept = λ c k i j _ _. find_assoc-put k (some i) c j;
  remove-result = λ c k. take_out_lem k (find_assoc c k);
  find-remove = λ c k j. find_assoc-erase k c j;
  find-clear = λ _ _. refl;
}
  where
    take_out_lem :
        (k : Bytes) (o : Option Item) → take_out k o ≡ elim o [ none ↦ none | some i ↦ some (k, i) ]
    take_out_lem k none = refl
    take_out_lem k (some i) = refl

-- A text that is a number below the bound is read whole.
abbrev below : ℕ → Bytes → Option ℕ → Option ℕ × ℕ
below bound t none = (none, 0)
below bound t (some n) = if ltb n bound then (some n, length t) else (none, 0)

pub below-lt :
    (bound : ℕ) (t : Bytes) (o : Option ℕ) (n : ℕ) → (below bound t o).0 ≡ some n → n < bound
below-lt bound t none n h = cc
below-lt bound t (some m) n h = ground arith

abbrev read_unsigned : ℕ → Bytes → Option ℕ × ℕ
read_unsigned bound t = below bound t (parse_u64 (trim t))

pub read_unsigned-to_string :
    (bound n : ℕ)
    → n < bound
    → n < 2 ^ 64
    → read_unsigned bound (to_string n) ≡ (some n, length (to_string n))
read_unsigned-to_string bound n h fits = rw (parse_u64-trim-to_string n fits) (ground arith)

abbrev negate : ℕ → ℤ
negate zero = pos zero
negate (suc n) = negsuc n

abbrev negated : Option ℕ × ℕ → Option ℤ × ℕ
negated (none, used) = (none, 0)
negated (some n, used) = (some (negate n), suc used)

abbrev kept : Option ℕ × ℕ → Option ℤ × ℕ
kept (none, used) = (none, 0)
kept (some n, used) = (some (pos n), used)

abbrev read_signed : Bytes → Option ℤ × ℕ
read_signed [] = (none, 0)
read_signed (b ∷ t) =
    if b == b'-'
    then negated (read_unsigned (2 ^ 63 + 1) t)
    else kept (read_unsigned (2 ^ 63) (b ∷ t))

negated-InI64 :
    (r : Option ℕ × ℕ) (z : ℤ)
    → ((n : ℕ) → r.0 ≡ some n → n < 2 ^ 63 + 1)
    → (negated r).0 ≡ some z
    → InI64 z
negated-InI64 (none, used) z h e = cc
negated-InI64 (some zero, used) z h e = rw (← some_eq) (omega arith)
  where
    some_eq : pos zero ≡ z
    some_eq = cc
negated-InI64 (some (suc n), used) z h e = rw (← some_eq) (omega (arith, h (suc n) refl))
  where
    some_eq : negsuc n ≡ z
    some_eq = cc

kept-InI64 :
    (r : Option ℕ × ℕ) (z : ℤ)
    → ((n : ℕ) → r.0 ≡ some n → n < 2 ^ 63)
    → (kept r).0 ≡ some z
    → InI64 z
kept-InI64 (none, used) z h e = cc
kept-InI64 (some n, used) z h e = rw (← some_eq) (h n refl)
  where
    some_eq : pos n ≡ z
    some_eq = cc

pub read_signed-InI64 : (t : Bytes) (z : ℤ) → (read_signed t).0 ≡ some z → InI64 z
read_signed-InI64 [] z h = cc
read_signed-InI64 (b ∷ t) z h = elim (Bool-cases (b == b'-')) [
  | inl minus ↦
      negated-InI64 (read_unsigned (2 ^ 63 + 1) t) z (below-lt (2 ^ 63 + 1) t (parse_u64 (trim t)))
        (rw minus at h)
  | inr other ↦
      kept-InI64 (read_unsigned (2 ^ 63) (b ∷ t)) z
        (below-lt (2 ^ 63) (b ∷ t) (parse_u64 (trim (b ∷ t)))) (rw other at h)
]

read_signed_digits :
    (s : Bytes) (n : ℕ)
    → ((b : ℕ) (t : Bytes) → s ≡ b ∷ t → (b == b'-') ≡ false)
    → s ≢ []
    → read_unsigned (2 ^ 63) s ≡ (some n, length s)
    → read_signed s ≡ (some (pos n), length s)
read_signed_digits [] n h ne e = absurd (ne refl)
read_signed_digits (b ∷ t) n h ne e = rw (h b t refl, e) refl

no_minus : (s : Bytes) → All IsDigit s → (b : ℕ) (t : Bytes) → s ≡ b ∷ t → (b == b'-') ≡ false
no_minus [] h b t e = cc
no_minus (c ∷ s) h b t e = let same : c ≡ b = cc in ground arith

pub read_signed-int_to_string :
    (z : ℤ) → InI64 z → read_signed (int_to_string z) ≡ (some z, length (int_to_string z))
unfolding int_to_string
read_signed-int_to_string (pos n) h =
    read_signed_digits (to_string n) n (no_minus (to_string n) (to_string-IsDigit n))
      (to_string-ne-nil n) (read_unsigned-to_string (2 ^ 63) n h (omega (arith, h)))
read_signed-int_to_string (negsuc n) h =
    ap negated (read_unsigned-to_string (2 ^ 63 + 1) (suc n) (omega (arith, h)) (omega (arith, h)))

abbrev pub whole_text_atoi : Atoi
whole_text_atoi = record {
  u32 = read_unsigned (2 ^ 32);
  u64 = read_unsigned (2 ^ 64);
  usize = read_unsigned (2 ^ 64);
  i64 = read_signed;
  u32-lt = λ t n. below-lt (2 ^ 32) t (parse_u64 (trim t)) n;
  u64-lt = λ t n. below-lt (2 ^ 64) t (parse_u64 (trim t)) n;
  usize-lt = λ t n. below-lt (2 ^ 64) t (parse_u64 (trim t)) n;
  i64-InI64 = read_signed-InI64;
  u32-to_string = λ n h. read_unsigned-to_string (2 ^ 32) n h (omega (arith, h));
  u64-to_string = λ n h. read_unsigned-to_string (2 ^ 64) n h h;
  usize-to_string = λ n h. read_unsigned-to_string (2 ^ 64) n h h;
  i64-to_string = read_signed-int_to_string;
}
