-- ===== src/Database/Retries.antt =====
-- When Connect of database.go succeeds.
use taskflow_api.Base.{
  ◌⊎◌, Bool-cases, ◌==◌, ℕ, zero, suc, ◌+◌, ◌≤◌, ◌<◌, ◌≡◌, ◌≢◌, refl, sym, ◌∙◌, ◌↔◌, Option, none,
  some, Option-cases, inl, inr, arith,
}
use taskflow_api.Domain.Errors.{Error, ok}
use taskflow_api.Database.{Driver, max_attempts, attempts, opened, connect}

-- The n-th ping works, and all of them before it from the first on failed, with the context not
-- done in between.
pub record Reaches (d : Driver) (first n : ℕ) : Type 0 where
  pub works : d.ping n ≡ none
  pub failed : (k : ℕ) → first ≤ k → k < n → (d.ping k ≢ none) × (d.done k ≡ none)

first_or_later : (first k : ℕ) → first ≤ k → (first ≡ k) ⊎ (suc first ≤ k)
first_or_later first k h = elim (Bool-cases (k == first)) [
  | inl e ↦ inl (ground arith)
  | inr e ↦ inr (ground arith)
]

before :
    (d : Driver) (first n : ℕ) (e : Error)
    → d.ping first ≡ some e
    → d.done first ≡ none
    → Reaches d (suc first) n
    → (k : ℕ) → first ≤ k
    → k < n
    → (d.ping k ≢ none) × (d.done k ≡ none)
before d first n e down on r k low high = elim (first_or_later first k low) [
  | inl same ↦ ((λ up. cc (up, same, down)), rw (← same) on)
  | inr later ↦ r.failed k later high
]

attempts-Reaches :
    (d : Driver) (left first : ℕ) (last : Option Error)
    → attempts d left first last ≡ ok tt
    → (n : ℕ) × (first ≤ n) × (n < first + left) × Reaches d first n
unfolding attempts
attempts-Reaches d zero first none h = cc h
attempts-Reaches d zero first (some e) h = cc h
attempts-Reaches d (suc left) first last h = elim (Option-cases (d.ping first)) [
  | inl up ↦ (
    first,
    omega arith,
    omega arith,
    record { works = up; failed = λ k low high. absurd (omega arith) },
  )
  | inr (e, down) ↦ elim (Option-cases (d.done first)) [
    | inr (c, stop) ↦ cc (rw (down, stop) at h)
    | inl on ↦
        let (n, low, high, r) = attempts-Reaches d left (suc first) (some e) (rw (down, on) at h) in
        (
          n,
          omega arith,
          omega arith,
          record { works = r.works; failed = before d first n e down on r },
        )
  ]
]

Reaches-attempts :
    (d : Driver) (left first n : ℕ) (last : Option Error)
    → first ≤ n
    → n < first + left
    → Reaches d first n
    → attempts d left first last ≡ ok tt
unfolding attempts
Reaches-attempts d zero first n last low high r = absurd (omega arith)
Reaches-attempts d (suc left) first n last low high r = elim (first_or_later first n low) [
  | inl same ↦ let up : d.ping first ≡ none = rw same r.works in rw up
  | inr later ↦
      let (down, on) = r.failed first (omega arith) later in
      elim (Option-cases (d.ping first)) [
        | inl up ↦ absurd (down up)
        | inr (e, failed) ↦
            rw (failed, on)
              (Reaches-attempts d left (suc first) n (some e) later (omega arith) (record {
                works = r.works;
                failed = λ k low' high'. r.failed k (omega arith) high';
              }))
      ]
]

opened_lem :
    (d : Driver) (r o : Option Error)
    → r ≡ none
    → o ≡ none
    → opened d r o ≡ attempts d max_attempts 1 none
opened_lem d none none h k = refl
opened_lem d none (some e) h k = cc k
opened_lem d (some e) o h k = cc h

-- Connect gives the database ten pings. If the driver is registered and opened, it succeeds exactly
-- when one of the first ten pings works, and no context was done during the waits before it.
pub connect_iff :
    (d : Driver)
    → d.register ≡ none
    → d.open_ ≡ none
    → (connect d ≡ ok tt) ↔ ((n : ℕ) × (1 ≤ n) × (n < 11) × Reaches d 1 n)
unfolding connect
connect_iff d registered openable =
    let same = opened_lem d d.register d.open_ registered openable in
    (
      λ h. attempts-Reaches d 10 1 none (sym same ∙ h),
      λ (n, low, high, r). same ∙ Reaches-attempts d 10 1 n none low high r,
    )
