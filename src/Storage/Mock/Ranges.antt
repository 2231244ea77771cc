-- ===== src/Storage/Mock/Ranges.antt =====
-- internal/storage/mock.go: `GetRange` of the store in memory.
use firefork_ai.Prelude.{
  ℕ, zero, suc, ◌+◌, ◌≤◌, ◌<◌, ◌≡◌, refl, ap, ◌∙◌, sym, false, [], ◌∷◌, ◌++◌, some, ltb, Result, ok,
  err, length, take, take_all, Bool-cases, inl, inr, arith,
}
use firefork_ai.Prelude.Word.{add64_small, lt64, lt64_small, half_mod}
use firefork_ai.Prelude.Text.{Text}
use firefork_ai.Storage.{Error}
use firefork_ai.Storage.Mock.{
  MockStorage, data_at, get, get_answers, drop_bytes, slice, range_of, range_found, get_range,
}

-- The bytes of a text from an offset, at most so many.
abbrev pub window : ℕ → ℕ → Text → Text
window offset len t = drop_bytes offset (take (offset + len) t)

range_of-window :
    (offset len : ℕ) (v : Text)
    → length v < half_mod
    → offset ≤ length v
    → offset + len < half_mod
    → range_of offset len v ≡ ok (window offset len v)
unfolding range_of slice
range_of-window offset len v h o e = elim (Bool-cases (ltb (length v) (offset + len))) [
  | inl q ↦
      rw
        (
          low offset (omega (arith, h, o)),
          high,
          add64_small offset len e,
          lt64_small (length v) (offset + len) h e,
          q,
          high,
          range_of,
        )
        (ap (λ t. ok (drop_bytes offset t))
          (take_all (length v) v (omega arith) ∙ sym (take_all (offset + len) v (ground arith))))
  | inr q ↦
      rw
        (
          low offset (omega (arith, h, o)),
          high,
          add64_small offset len e,
          lt64_small (length v) (offset + len) h e,
          q,
          lt64_small (offset + len) offset e (omega (arith, h, o)),
          range_of,
        )
        (ground arith)
]
  where
    low : (n : ℕ) → n < half_mod → lt64 n 0 ≡ false
    low n b = ground (arith, lt64_small n 0 b)

    high : lt64 (length v) offset ≡ false
    high = ground (arith, lt64_small (length v) offset h, o, h)

take_nil : (n : ℕ) → take {A = ℕ} n [] ≡ []
unfolding take
take_nil zero = refl
take_nil (suc n) = refl

drop_nil : (n : ℕ) → drop_bytes n [] ≡ []
unfolding drop_bytes
drop_nil zero = refl
drop_nil (suc n) = refl

drop_bytes-take :
    (o a n : ℕ) (t : Text) → n ≡ o + a → drop_bytes o (take n t) ≡ take a (drop_bytes o t)
unfolding drop_bytes take
drop_bytes-take zero a n t e = ap (λ x. take x t) (omega (arith, e))
drop_bytes-take (suc o) a zero t e = absurd (omega (arith, e))
drop_bytes-take (suc o) a (suc n) [] e = sym (take_nil a)
drop_bytes-take (suc o) a (suc n) (x ∷ t) e = drop_bytes-take o a n t (omega (arith, e))

drop_bytes_add : (o a n : ℕ) (t : Text) → n ≡ o + a → drop_bytes n t ≡ drop_bytes a (drop_bytes o t)
unfolding drop_bytes
drop_bytes_add zero a n t e = ap (λ x. drop_bytes x t) (omega (arith, e))
drop_bytes_add (suc o) a zero t e = absurd (omega (arith, e))
drop_bytes_add (suc o) a (suc n) [] e = sym (drop_nil a)
drop_bytes_add (suc o) a (suc n) (x ∷ t) e = drop_bytes_add o a n t (omega (arith, e))

take_add : (a b n : ℕ) (t : Text) → n ≡ a + b → take a t ++ take b (drop_bytes a t) ≡ take n t
unfolding drop_bytes take
take_add zero b n t e = ap (λ x. take x t) (omega (arith, e))
take_add (suc a) b zero t e = absurd (omega (arith, e))
take_add (suc a) b (suc n) [] e = take_nil b
take_add (suc a) b (suc n) (x ∷ t) e = ap (λ l. x ∷ l) (take_add a b n t (omega (arith, e)))

-- Two windows side by side are one.
window_append :
    (offset a b : ℕ) (t : Text)
    → window offset a t ++ window (offset + a) b t ≡ window offset (a + b) t
window_append o a b t =
    ap (λ l. l ++ window (o + a) b t) (drop_bytes-take o a (o + a) t refl)
    ∙ ap (λ l. take a (drop_bytes o t) ++ l)
        (drop_bytes-take (o + a) b (o + a + b) t refl
          ∙ ap (take b) (drop_bytes_add o a (o + a) t refl))
    ∙ take_add a b (a + b) (drop_bytes o t) refl
    ∙ sym (drop_bytes-take o (a + b) (o + (a + b)) t refl)

module _ (k v : Text) (m : MockStorage) (there : data_at k m ≡ some v)
    (small : length v < half_mod) where
  range_found-window :
      (offset len : ℕ) (g : MockStorage × Result Error Text)
      → g.1 ≡ ok v
      → offset ≤ length v
      → offset + len < half_mod
      → (range_found offset len g).1 ≡ ok (window offset len v)
  unfolding range_found
  range_found-window offset len (n, err e) h o b = absurd (ground arith)
  range_found-window offset len (n, ok w) h o b =
      ap (range_of offset len) (ground arith) ∙ range_of-window offset len v small o b

  -- `GetRange` within an object returns the bytes from the offset on, up to the length or the end of the
  -- object, and two ranges side by side are the bytes of the one range over both, which is what a download
  -- in parts relies on.
  pub get_range-window :
      (offset a b : ℕ)
      → offset + a ≤ length v
      → offset + a + b < half_mod
      → ((get_range false k offset a m).1 ≡ ok (window offset a v))
        × ((get_range false k (offset + a) b m).1 ≡ ok (window (offset + a) b v))
        × (window offset a v ++ window (offset + a) b v ≡ window offset (a + b) v)
  unfolding get_range
  get_range-window offset a b o h = (
    range_found-window offset a (get false k m) (get_answers k v m there) (omega (arith, o))
        (omega (arith, h)),
    range_found-window (offset + a) b (get false k m) (get_answers k v m there) o h,
    window_append offset a b v,
  )
