-- ===== src/Context/Text/Split.antt =====
-- splitUtf8 cuts a text in two without loss, as late as the limit allows.
use agent_supervisor_runtime.Base.{
  ℕ, ◌+◌, ◌-◌, ◌≤◌, ◌<◌, [], ◌∷◌, ◌++◌, none, some, ◌≡◌, ◌⊎◌, inl, inr, refl, ap, subst, arith,
  Bool-cases, ltb, leb, nat_eq, true, false, ◌≢◌,
}
use agent_supervisor_runtime.Context.Text.{
  Content, utf8_size, units, byte_length, slice_to, slice_from, split_index, Pieces, split_utf8,
}

-- The next code point would not fit.
abbrev pub IsFull : ℕ → ℕ → Content → Type 0
IsFull max_bytes used [] = Unit
IsFull max_bytes used (c ∷ cs) = max_bytes < used + utf8_size c

-- What the loop does, on the code points `n` of the index that it adds.
record Cut (max_bytes bytes index : ℕ) (content : Content) : Type 0 where
  added : ℕ
  at_index : split_index max_bytes bytes index content ≡ index + added
  whole : slice_to added content ++ slice_from added content ≡ content
  fits : bytes + byte_length (slice_to added content) ≤ max_bytes
  full : IsFull max_bytes (bytes + byte_length (slice_to added content)) (slice_from added content)
  progress : added ≢ 0 → slice_to added content ≢ []

slice_none : (content : Content) → (slice_to 0 content ≡ []) × (slice_from 0 content ≡ content)
unfolding slice_to slice_from
slice_none [] = (refl, refl)
slice_none (c ∷ cs) = ground arith

slice_cons :
    (c n : ℕ) (cs : Content)
    → (slice_to (units c + n) (c ∷ cs) ≡ c ∷ slice_to n cs)
      × (slice_from (units c + n) (c ∷ cs) ≡ slice_from n cs)
unfolding slice_to slice_from
slice_cons c n cs =
    let e : units c + n - units c ≡ n = omega arith in
    let b : leb (units c) (units c + n) ≡ true = ground arith in (rw (b, e) refl, rw (b, e) refl)

cons_not_nil : (c : ℕ) (cs : Content) → c ∷ cs ≢ []
cons_not_nil c cs p = ground arith

append_nil : (cs : Content) → cs ++ [] ≡ cs
append_nil [] = refl
append_nil (c ∷ cs) = ap (λ x. c ∷ x) (append_nil cs)

not_short :
    (content : Content) (max_bytes : ℕ) → leb (byte_length content) max_bytes ≡ false → content ≢ []
not_short [] max_bytes v n = ground arith
not_short (c ∷ cs) max_bytes v n = cons_not_nil c cs n

cut :
    (max_bytes bytes index : ℕ) (content : Content)
    → bytes ≤ max_bytes
    → Cut max_bytes bytes index content
unfolding split_index
cut max_bytes bytes index [] h =
    unfold slice_to slice_from in
    record {
      added = 0;
      at_index = omega arith;
      whole = refl;
      fits = omega (arith, h);
      full = tt;
      progress = λ n. absurd (n refl);
    }
cut max_bytes bytes index (c ∷ cs) h = elim (Bool-cases (ltb max_bytes (bytes + utf8_size c))) [
  | inl v ↦
      let (a, b) = slice_none (c ∷ cs) in
      record {
        added = 0;
        at_index = rw v (omega arith);
        whole = rw (a, b) refl;
        fits = rw a (omega (arith, h));
        full = rw (a, b) (ground arith);
        progress = λ n. absurd (n refl);
      }
  | inr v ↦
      let more = cut max_bytes (bytes + utf8_size c) (index + units c) cs (ground arith) in
      let (a, b) = slice_cons c more.added cs in
      record {
        added = units c + more.added;
        at_index = rw v (omega (arith, more.at_index));
        whole = rw (a, b) (ap (λ x. c ∷ x) more.whole);
        fits = rw a (omega (arith, more.fits));
        full =
            rw (a, b)
              (subst (λ u. IsFull max_bytes u (slice_from more.added cs)) (omega arith) more.full);
        progress = λ n. rw a (cons_not_nil c (slice_to more.added cs));
      }
]

-- Two pieces of a text: nothing is lost or reordered, the first is not empty unless the text is,
-- it keeps within the limit, and one more code point would not.
pub record IsSplit (content : Content) (max_bytes : ℕ) (p : Pieces) : Type 0 where
  pub whole : p.head ++ p.tail ≡ content
  pub fits : byte_length p.head ≤ max_bytes
  pub full : IsFull max_bytes (byte_length p.head) p.tail
  pub progress : content ≢ [] → p.head ≢ []

IsFull-from_zero :
    (max_bytes : ℕ) (u v : Content)
    → IsFull max_bytes (0 + byte_length u) v
    → IsFull max_bytes (byte_length u) v
IsFull-from_zero max_bytes u v h = subst (λ n. IsFull max_bytes n v) (omega arith) h

-- Every text is split in this way, unless its first code point alone is over the limit.
pub split_utf8-IsSplit :
    (content : Content) (max_bytes : ℕ)
    → ((p : Pieces) × (split_utf8 content max_bytes ≡ some p) × IsSplit content max_bytes p)
      ⊎ ((split_utf8 content max_bytes ≡ none) × (content ≢ []) × IsFull max_bytes 0 content)
unfolding split_utf8
split_utf8-IsSplit content max_bytes = elim (Bool-cases (leb (byte_length content) max_bytes)) [
  | inl v ↦ inl (
    record { head = content; tail = [] },
    rw v refl,
    record { whole = append_nil content; fits = ground arith; full = tt; progress = λ n. n },
  )
  | inr v ↦
      let k = cut max_bytes 0 0 content (omega arith) in
      let at : split_index max_bytes 0 0 content ≡ k.added = omega (arith, k.at_index) in
      let full =
        IsFull-from_zero max_bytes (slice_to k.added content) (slice_from k.added content) k.full in
      elim (Bool-cases (nat_eq (split_index max_bytes 0 0 content) 0)) [
        | inl z ↦
            let none_added : k.added ≡ 0 = ground (arith, k.at_index) in
            let (a, b) = slice_none content in
            inr (
              rw (v, z) refl,
              not_short content max_bytes v,
              subst (λ cs. IsFull max_bytes 0 cs) b
                  (subst (λ u. IsFull max_bytes (byte_length u) (slice_from 0 content)) a
                    (subst
                      (λ n.
                        IsFull max_bytes (byte_length (slice_to n content)) (slice_from n content))
                      none_added full)),
            )
        | inr z ↦ inl (
          record { head = slice_to k.added content; tail = slice_from k.added content },
          rw (v, z, at) refl,
          record {
            whole = k.whole;
            fits = omega (arith, k.fits);
            full = full;
            progress = λ n. k.progress (λ e. ground (arith, k.at_index));
          },
        )
      ]
]
