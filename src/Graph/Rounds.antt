-- ===== src/Graph/Rounds.antt =====
-- What a round of the search learns.
use mathlib.Core.Logic.{⊎_elim}
use swift_proof.Prelude.{
  Bool, Bool-cases, List, Member, Option, Option-cases, String, [], inl, inr, none, not_both, refl,
  some, some-injective, subst, true, ℕ, ◌∙◌, ◌∷◌, ◌≡◌,
}
use swift_proof.Graph.{
  Search, View, backward, expand, expand_all, forward, scan_in, scan_out, scanned, seen,
}
use swift_proof.Graph.Marks.{Follows, level}
use swift_proof.Graph.Offers.{
  Covers, Grows, Grows-refl, Grows-trans, IsRound, IsSeen, backward-IsOffer, forward-IsOffer,
  scan_in-Grows, scan_out-Grows,
}

module _ (v : View) (kinds : List String) (undirected : Bool) (from : ℕ) where
  -- Every node that an edge leads to from this one is seen.
  unfoldable pub Closes : ℕ → Search → Type 0
  Closes n s = (edge m : ℕ) → Follows v kinds undirected n edge m → seen m s.prev ≡ true

  pub Closes-Grows :
      (d n : ℕ) (s t : Search) → Grows v kinds undirected from d s t → Closes n s → Closes n t
  unfolding Closes
  Closes-Grows d n s t g c edge m f = (g.keeps m (c edge m f)).0

  led :
      (o : Option ℕ) (m : ℕ) (s : Search)
      → o ≡ some m
      → IsSeen v kinds undirected from o s
      → seen m s.prev ≡ true
  led o m s q x = subst (λ p. IsSeen v kinds undirected from p s) q x

  scanned-Grows :
      (d n : ℕ) (s u t : Search)
      → Grows v kinds undirected from d s u
      → Covers v kinds undirected from (forward v kinds) (v.outs n) u
      → seen n s.prev ≡ true
      → level n s.prev ≡ d
      → scanned v kinds undirected n (some u) ≡ some t
      → Grows v kinds undirected from d s t × Closes n t
  unfolding scanned Closes Follows Covers
  scanned-Grows d n s u t g c there at_d e = elim (Bool-cases undirected) [
    | inl both ↦
        let (yet, same) = g.keeps n there in
        let (h, back) =
          scan_in-Grows v kinds undirected from d n (v.ins n) u g.round yet (same ∙ at_d)
            (λ i x. backward-IsOffer v kinds undirected from n i both x) in
        let w = scan_in v kinds n (v.ins n) u in
        subst (λ y. Grows v kinds undirected from d s y × Closes n y)
          (some-injective _ _ (rw both at e))
          (
            Grows-trans v kinds undirected from d s u w g h,
            λ edge m.
                ⊎_elim (λ (x, q). (h.keeps m (led (forward v kinds edge) m u q (c edge x))).0)
                  (λ (b, x, q). led (backward v kinds edge) m w q (back edge x)),
          )
    | inr one_way ↦
        subst (λ y. Grows v kinds undirected from d s y × Closes n y)
          (some-injective _ _ (rw one_way at e))
          (
            g,
            λ edge m.
                ⊎_elim (λ (x, q). led (forward v kinds edge) m u q (c edge x))
                  (λ (b, x, q). absurd (not_both undirected one_way b)),
          )
  ]

  expand-Grows :
      (d n : ℕ) (s t : Search)
      → IsRound v kinds undirected from d s
      → seen n s.prev ≡ true
      → level n s.prev ≡ d
      → expand v kinds undirected n s ≡ some t
      → Grows v kinds undirected from d s t × Closes n t
  unfolding expand scanned
  expand-Grows d n s t r there at_d e = elim (Option-cases (scan_out v kinds n (v.outs n) s)) [
    | inl spent ↦ cc (rw spent at e)
    | inr (u, q) ↦
        let (g, c) =
          scan_out-Grows v kinds undirected from d n (v.outs n) s u r there at_d
            (forward-IsOffer v kinds undirected from n) q in
        scanned-Grows d n s u t g c there at_d (rw q at e)
  ]

  expand_all-none : (ns : List ℕ) (t : Search) → expand_all v kinds undirected ns none ≡ some t → ⊥
  unfolding expand_all
  expand_all-none [] t e = cc
  expand_all-none (n ∷ ns) t e = cc

  -- The frontier of a round: seen, and at the round's level.
  unfoldable pub IsAt : ℕ → List ℕ → Search → Type 0
  IsAt d ns s = (n : ℕ) → Member n ns → (seen n s.prev ≡ true) × (level n s.prev ≡ d)

  pub expand_all-Grows :
      (d : ℕ) (ns : List ℕ) (s t : Search)
      → IsRound v kinds undirected from d s
      → IsAt d ns s
      → expand_all v kinds undirected ns (some s) ≡ some t
      → Grows v kinds undirected from d s t × ((n : ℕ) → Member n ns → Closes n t)
  unfolding expand_all IsAt
  expand_all-Grows d [] s t r f e =
      subst (λ u. Grows v kinds undirected from d s u × ((n : ℕ) → Member n [] → Closes n u))
        (some-injective _ _ e) (Grows-refl v kinds undirected from d s r, λ n x. absurd x)
  expand_all-Grows d (n ∷ ns) s t r f e = elim (Option-cases (expand v kinds undirected n s)) [
    | inl spent ↦ absurd (expand_all-none ns t (rw spent at e))
    | inr (u, q) ↦
        let (there, at_d) = f n (inl refl) in
        let (g, c) = expand-Grows d n s u r there at_d q in
        let (h, cs) =
          expand_all-Grows d ns u t g.round
            (λ k x. let (y, same) = f k (inr x) in let (z, kept) = g.keeps k y in (z, kept ∙ same))
            (rw q at e) in
        (
          Grows-trans v kinds undirected from d s u t g h,
          λ k. ⊎_elim (λ same. subst (λ j. Closes j t) same (Closes-Grows d n u t h c)) (cs k),
        )
  ]
