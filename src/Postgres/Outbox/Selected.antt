-- ===== src/Postgres/Outbox/Selected.antt =====
-- crates/postgres/src/outbox.rs: which rows `claim` takes.
use sisa_messaging_rs.Prelude.{
  ℕ, zero, suc, ◌≤◌, ◌≡◌, refl, sym, ap, subst, ◌⊎◌, inl, inr, Bool, true, false, not, ◌&&◌, List,
  [], ◌∷◌, arith, Bool-cases, leb,
}
use sisa_messaging_rs.Prelude.Lists.{All, any_of, take, length}
use mathlib.Core.List.{Memᴰ}
use mathlib.Core.List.Memᴰ
use sisa_messaging_rs.Postgres.Outbox.{Row}
use sisa_messaging_rs.Postgres.Outbox.Statements.{
  filter, place, order_by_id, is_due, bound_limit, select_due,
}

pub any_of-Memᴰ :
    {A : Type 0} (p : A → Bool) (xs : List A)
    → any_of p xs ≡ true
    → (x : A) × Memᴰ x xs × (p x ≡ true)
any_of-Memᴰ p [] h = absurd (cc h)
any_of-Memᴰ p (x ∷ xs) h = elim (Bool-cases (p x)) [
  | inl e ↦ (x, Memᴰ.head refl, e)
  | inr e ↦ let (y, m, q) = any_of-Memᴰ p xs (ground arith) in (y, Memᴰ.tail m, q)
]

pub Memᴰ-any_of :
    {A : Type 0} (p : A → Bool) (x : A) (xs : List A) → Memᴰ x xs → p x ≡ true → any_of p xs ≡ true
Memᴰ-any_of p x [] m h = absurd (Memᴰ.not-nil m)
Memᴰ-any_of p x (y ∷ xs) (Memᴰ.head e) h =
    let h' : p y ≡ true = subst (λ z. p z ≡ true) e h in ground arith
Memᴰ-any_of p x (y ∷ xs) (Memᴰ.tail m) h = let ih = Memᴰ-any_of p x xs m h in ground arith

filter_keeps :
    (p : Row → Bool) (r : Row) (rs : List Row) → p r ≡ true → filter p (r ∷ rs) ≡ r ∷ filter p rs
filter_keeps p r rs e = rw e refl

filter_drops :
    (p : Row → Bool) (r : Row) (rs : List Row) → p r ≡ false → filter p (r ∷ rs) ≡ filter p rs
filter_drops p r rs e = rw e refl

pub filter-Memᴰ :
    (p : Row → Bool) (x : Row) (rs : List Row) → Memᴰ x (filter p rs) → Memᴰ x rs × (p x ≡ true)
filter-Memᴰ p x [] m = absurd (Memᴰ.not-nil m)
filter-Memᴰ p x (r ∷ rs) m = elim (Bool-cases (p r)) [
  | inl e ↦ elim (Memᴰ.cases_cons (subst (Memᴰ x) (filter_keeps p r rs e) m)) [
    | inl h ↦ (Memᴰ.head h, subst (λ z. p z ≡ true) (sym h) e)
    | inr h ↦ let (m', q) = filter-Memᴰ p x rs h in (Memᴰ.tail m', q)
  ]
  | inr e ↦
      let (m', q) = filter-Memᴰ p x rs (subst (Memᴰ x) (filter_drops p r rs e) m) in
      (Memᴰ.tail m', q)
]

Memᴰ-filter :
    (p : Row → Bool) (x : Row) (rs : List Row) → Memᴰ x rs → p x ≡ true → Memᴰ x (filter p rs)
Memᴰ-filter p x [] m h = absurd (Memᴰ.not-nil m)
Memᴰ-filter p x (r ∷ rs) m h = elim (Memᴰ.cases_cons m) [
  | inl e ↦ subst (Memᴰ x) (sym (filter_keeps p r rs (subst (λ z. p z ≡ true) e h))) (Memᴰ.head e)
  | inr m' ↦
      let below = Memᴰ-filter p x rs m' h in
      elim (Bool-cases (p r)) [
        | inl e ↦ subst (Memᴰ x) (sym (filter_keeps p r rs e)) (Memᴰ.tail below)
        | inr e ↦ subst (Memᴰ x) (sym (filter_drops p r rs e)) below
      ]
]

-- The ids of a list of rows ascend.
abbrev pub IsOrdered : List Row → Type 0
IsOrdered [] = Unit
IsOrdered (x ∷ xs) = All (λ y. x.id ≤ y.id) xs × IsOrdered xs

place-Below :
    (n : ℕ) (r : Row) (xs : List Row)
    → n ≤ r.id
    → All (λ y. n ≤ y.id) xs
    → All (λ y. n ≤ y.id) (place r xs)
place-Below n r [] h a = (h, tt)
place-Below n r (x ∷ xs) h a = ground (arith, place-Below n r xs h a.1)

Below-trans : (n k : ℕ) (xs : List Row) → n ≤ k → All (λ y. k ≤ y.id) xs → All (λ y. n ≤ y.id) xs
Below-trans n k [] h a = tt
Below-trans n k (x ∷ xs) h a = (omega (arith, a.0), Below-trans n k xs h a.1)

place-IsOrdered : (r : Row) (xs : List Row) → IsOrdered xs → IsOrdered (place r xs)
place-IsOrdered r [] o = (tt, tt)
place-IsOrdered r (x ∷ xs) o = elim (Bool-cases (leb r.id x.id)) [
  | inl e ↦ let h : r.id ≤ x.id = ground arith in rw e ((h, Below-trans r.id x.id xs h o.0), o)
  | inr e ↦
      let h : x.id ≤ r.id = ground arith in
      rw e (place-Below x.id r xs h o.0, place-IsOrdered r xs o.1)
]

pub order_by_id-IsOrdered : (xs : List Row) → IsOrdered (order_by_id xs)
order_by_id-IsOrdered [] = tt
order_by_id-IsOrdered (x ∷ xs) = place-IsOrdered x (order_by_id xs) (order_by_id-IsOrdered xs)

place-Memᴰ : (x r : Row) (xs : List Row) → Memᴰ x (place r xs) → (x ≡ r) ⊎ Memᴰ x xs
place-Memᴰ x r [] m = Memᴰ.cases_cons m
place-Memᴰ x r (y ∷ xs) m = elim (Bool-cases (leb r.id y.id)) [
  | inl e ↦ Memᴰ.cases_cons (rw e at m)
  | inr e ↦ elim (Memᴰ.cases_cons (rw e at m)) [
    | inl h ↦ inr (Memᴰ.head h)
    | inr h ↦ elim (place-Memᴰ x r xs h) [ inl q ↦ inl q | inr q ↦ inr (Memᴰ.tail q) ]
  ]
]

Memᴰ-place : (x r : Row) (xs : List Row) → (x ≡ r) ⊎ Memᴰ x xs → Memᴰ x (place r xs)
Memᴰ-place x r [] (inl h) = Memᴰ.head h
Memᴰ-place x r [] (inr m) = Memᴰ.tail m
Memᴰ-place x r (y ∷ xs) h = elim (Bool-cases (leb r.id y.id)) [
  | inl e ↦ rw e (elim h [ inl q ↦ Memᴰ.head q | inr m ↦ Memᴰ.tail m ])
  | inr e ↦ rw e (elim h [
    | inl q ↦ Memᴰ.tail (Memᴰ-place x r xs (inl q))
    | inr m ↦ elim (Memᴰ.cases_cons m) [
      | inl q ↦ Memᴰ.head q
      | inr m' ↦ Memᴰ.tail (Memᴰ-place x r xs (inr m'))
    ]
  ])
]

pub order_by_id-Memᴰ : (x : Row) (xs : List Row) → Memᴰ x (order_by_id xs) → Memᴰ x xs
order_by_id-Memᴰ x [] m = m
order_by_id-Memᴰ x (y ∷ xs) m = elim (place-Memᴰ x y (order_by_id xs) m) [
  | inl h ↦ Memᴰ.head h
  | inr h ↦ Memᴰ.tail (order_by_id-Memᴰ x xs h)
]

pub Memᴰ-order_by_id : (x : Row) (xs : List Row) → Memᴰ x xs → Memᴰ x (order_by_id xs)
Memᴰ-order_by_id x [] m = m
Memᴰ-order_by_id x (y ∷ xs) m =
    Memᴰ-place x y (order_by_id xs)
      (elim (Memᴰ.cases_cons m) [ inl h ↦ inl h | inr h ↦ inr (Memᴰ-order_by_id x xs h) ])

take-Memᴰ : (n : ℕ) (x : Row) (xs : List Row) → Memᴰ x (take n xs) → Memᴰ x xs
take-Memᴰ zero x xs m = absurd (Memᴰ.not-nil m)
take-Memᴰ (suc n) x [] m = m
take-Memᴰ (suc n) x (y ∷ xs) m = elim (Memᴰ.cases_cons m) [
  | inl h ↦ Memᴰ.head h
  | inr h ↦ Memᴰ.tail (take-Memᴰ n x xs h)
]

length-take-le : (n : ℕ) (xs : List Row) → length (take n xs) ≤ n
length-take-le zero xs = omega arith
length-take-le (suc n) [] = omega arith
length-take-le (suc n) (x ∷ xs) = omega (arith, length-take-le n xs)

All-Memᴰ : (n : ℕ) (x : Row) (xs : List Row) → All (λ y. n ≤ y.id) xs → Memᴰ x xs → n ≤ x.id
All-Memᴰ n x [] a m = absurd (Memᴰ.not-nil m)
All-Memᴰ n x (y ∷ xs) a m = elim (Memᴰ.cases_cons m) [
  | inl h ↦ subst (λ z. n ≤ z.id) (sym h) a.0
  | inr h ↦ All-Memᴰ n x xs a.1 h
]

-- A row that the limit leaves out comes after as many others as the limit allows.
abbrev pub IsLeftOut : ℕ → Row → List Row → Type 0
IsLeftOut n x taken = (length taken ≡ n) × All (λ y. y.id ≤ x.id) taken

take_or_left :
    (n : ℕ) (x : Row) (xs : List Row)
    → IsOrdered xs
    → Memᴰ x xs
    → Memᴰ x (take n xs) ⊎ IsLeftOut n x (take n xs)
take_or_left zero x xs o m = inr (refl, tt)
take_or_left (suc n) x [] o m = inl m
take_or_left (suc n) x (y ∷ xs) o m = elim (Memᴰ.cases_cons m) [
  | inl h ↦ inl (Memᴰ.head h)
  | inr h ↦ elim (take_or_left n x xs o.1 h) [
    | inl q ↦ inl (Memᴰ.tail q)
    | inr q ↦ inr (ap suc q.0, (All-Memᴰ y.id x xs o.0 h, q.1))
  ]
]

-- What a claim selects, at most as many rows as its limit allows: each is in the table, pending, due
-- and not locked, and each such row is selected unless the limit is filled by rows that do not come
-- after it by id.
pub record IsSelection (locked : Row → Bool) (now limit : ℕ) (rs selected : List Row) : Type 0 where
  pub few : length selected ≤ limit
  pub sound : (r : Row) → Memᴰ r selected → Memᴰ r rs × (is_due now r ≡ true) × (locked r ≡ false)
  pub complete :
      (r : Row)
      → Memᴰ r rs
      → is_due now r ≡ true
      → locked r ≡ false
      → Memᴰ r selected ⊎ IsLeftOut (bound_limit limit) r selected

-- A claim selects what `IsSelection` describes: the first rows by id of those that are pending, due
-- and not locked, as many as the limit allows and there are.
pub select_due-IsSelection :
    (locked : Row → Bool) (now limit : ℕ) (rs : List Row)
    → IsSelection locked now limit rs (select_due locked now limit rs)
unfolding select_due
select_due-IsSelection locked now limit rs =
    let p : Row → Bool = λ r. is_due now r && not (locked r) in
    let ordered = order_by_id (filter p rs) in
    record {
      few = omega (arith, length-take-le (bound_limit limit) ordered);
      sound = λ r m.
          let (m', q) =
            filter-Memᴰ p r rs
              (order_by_id-Memᴰ r (filter p rs) (take-Memᴰ (bound_limit limit) r ordered m)) in
          (m', ground arith, ground arith);
      complete = λ r m due free.
          take_or_left (bound_limit limit) r ordered (order_by_id-IsOrdered (filter p rs))
            (Memᴰ-order_by_id r (filter p rs) (Memᴰ-filter p r rs m (rw (due, free) refl)));
    }
