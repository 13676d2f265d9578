-- ===== src/Examples/Limits.antt =====
-- A limiter of one event for each key.
use swift_proof.Prelude.{
  Member, String, [], ap, arith, false, inl, inr, leb, length, ltb, refl, some, text_eq, true, ℕ,
  ◌∷◌, ◌≡◌,
}
use swift_proof.Prelude.Dict.{Dict, get}
use swift_proof.Limiter.{MapOrder, WindowLimiter, allow}
use swift_proof.Limiter.Bounds.{IsAllowed, IsBounded, allow-IsBounded}

-- A visit that stops after the first entry, which the laws of a visit allow.
abbrev first_only : Dict ℕ → Dict ℕ
first_only [] = []
first_only (e ∷ es) = e ∷ []

first_found : (m : Dict ℕ) (k : String) (n : ℕ) → Member (k, n) (first_only m) → get k m ≡ some n
unfolding get
first_found [] k n m = absurd m
first_found ((j, v) ∷ es) k n (inl p) =
    ground (arith, ap (λ e. e.0) p, ap (λ e. e.1) p, text_eq j k)
first_found ((j, v) ∷ es) k n (inr m) = absurd m

first_some : (m : Dict ℕ) → ltb 0 (length m) ≡ true → ltb 0 (length (first_only m)) ≡ true
first_some [] h = h
first_some (e ∷ es) h = refl

abbrev in_order : MapOrder
in_order = record { visit = first_only; visit_found = first_found; visit_some = first_some }

abbrev busy : WindowLimiter
busy = record { limit = 1; window = 60; start = 100; counts = ("a", 1) ∷ [] }

busy-IsBounded : IsBounded busy
unfolding get
busy-IsBounded = record { few_keys = omega arith; within = λ k n p. ground arith }

allow-IsBounded_example :
    IsBounded (allow in_order 110 "b" busy).0
    × (leb 160 110 ≡ true → IsAllowed "b" 110 [] busy (allow in_order 110 "b" busy))
    × (leb 160 110 ≡ false → IsAllowed "b" 100 (("a", 1) ∷ []) busy (allow in_order 110 "b" busy))
allow-IsBounded_example = allow-IsBounded in_order 110 "b" busy busy-IsBounded
