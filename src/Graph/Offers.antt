-- ===== src/Graph/Offers.antt =====
-- What a search learns from an edge, from a node and from a frontier.
use mathlib.Core.Logic.{⊎_elim}
use swift_proof.Prelude.{
  Bool, Bool-cases, List, Member, Option, String, [], ap, arith, eqb, false, inl, inr, leb, none,
  or_split, refl, some, some-injective, subst, suc, sym, true, ℕ, ◌++◌, ◌||◌, ◌∙◌, ◌∷◌, ◌≡◌, ◌≤◌,
  ◌⊎◌,
}
use swift_proof.Graph.{
  Mark, Marks, Search, View, backward, forward, max_path_visits, offer, scan_in, scan_out, seen,
  try_node, via,
}
use swift_proof.Graph.Marks.{Follows, IsTree, level, level-new, level-old}

Member-snoc : (n m : ℕ) (ns : List ℕ) → Member n (ns ++ m ∷ []) → Member n ns ⊎ (n ≡ m)
Member-snoc n m [] (inl e) = inr (sym e)
Member-snoc n m [] (inr x) = absurd x
Member-snoc n m (k ∷ ns) (inl e) = inl (inl e)
Member-snoc n m (k ∷ ns) (inr x) = ⊎_elim (λ y. inl (inr y)) inr (Member-snoc n m ns x)

Member-before : (n m : ℕ) (ns : List ℕ) → Member n ns → Member n (ns ++ m ∷ [])
Member-before n m [] x = absurd x
Member-before n m (k ∷ ns) (inl e) = inl e
Member-before n m (k ∷ ns) (inr x) = inr (Member-before n m ns x)

Member-last : (m : ℕ) (ns : List ℕ) → Member m (ns ++ m ∷ [])
Member-last m [] = inl refl
Member-last m (k ∷ ns) = inr (Member-last m ns)

seen_first : (m : ℕ) (k : Mark) (ms : Marks) → seen m ((m, k) ∷ ms) ≡ true
seen_first m k ms = ground arith

module _ (v : View) (kinds : List String) (undirected : Bool) (from : ℕ) where
  -- The round that expands the nodes of level `d`.
  pub record IsRound (d : ℕ) (s : Search) : Type 0 where
    pub tree : IsTree v kinds undirected from s.prev
    pub low : (n : ℕ) → seen n s.prev ≡ true → level n s.prev ≤ suc d
    pub new : (n : ℕ) → Member n s.next → (seen n s.prev ≡ true) × (level n s.prev ≡ suc d)

  -- A search that went on: nothing seen is forgotten, and what is new waits.
  pub record Grows (d : ℕ) (s s' : Search) : Type 0 where
    pub round : IsRound d s'
    pub keeps :
        (n : ℕ)
        → seen n s.prev ≡ true
        → (seen n s'.prev ≡ true) × (level n s'.prev ≡ level n s.prev)
    pub fresh : (n : ℕ) → seen n s'.prev ≡ true → (seen n s.prev ≡ true) ⊎ Member n s'.next
    pub queue : (n : ℕ) → Member n s.next → Member n s'.next

  pub Grows-refl : (d : ℕ) (s : Search) → IsRound d s → Grows d s s
  Grows-refl d s r = record {
    round = r;
    keeps = λ n x. (x, refl);
    fresh = λ n x. inl x;
    queue = λ n x. x;
  }

  pub Grows-trans : (d : ℕ) (s t u : Search) → Grows d s t → Grows d t u → Grows d s u
  Grows-trans d s t u a b = record {
    round = b.round;
    keeps = λ n x. let (y, e) = a.keeps n x in let (z, f) = b.keeps n y in (z, f ∙ e);
    fresh =
        λ n x. ⊎_elim (λ y. ⊎_elim inl (λ q. inr (b.queue n q)) (a.fresh n y)) inr (b.fresh n x);
    queue = λ n x. b.queue n (a.queue n x);
  }

  seen_more :
      {P : Type 0} (k m : ℕ) (s : Search)
      → (eqb m k || seen k s.prev) ≡ true
      → (m ≡ k → P)
      → (seen k s.prev ≡ true → P)
      → P
  seen_more k m s x is_m was =
      ⊎_elim (λ e. is_m (ground (arith, e))) was (or_split (eqb m k) (seen k s.prev) x)

  try_new-Grows :
      (d n edge m : ℕ) (s : Search)
      → IsRound d s
      → seen n s.prev ≡ true
      → level n s.prev ≡ d
      → Follows v kinds undirected n edge m
      → seen m s.prev ≡ false
      → Grows d s (record s { prev = (m, via n edge) ∷ s.prev; next = s.next ++ m ∷ [] })
  unfolding level IsTree
  try_new-Grows d n edge m s r there at_d f new_m =
      let prev' = (m, via n edge) ∷ s.prev in
      let old = λ (k : ℕ) (x : seen k s.prev ≡ true). level-old m n edge k s.prev x new_m in
      let at_new = λ (k : ℕ) (e : m ≡ k).
        subst (λ j. level j prev' ≡ suc d) e (level-new m n edge s.prev ∙ ap suc at_d) in
      let seen_new = λ (k : ℕ) (e : m ≡ k).
        subst (λ j. seen j prev' ≡ true) e (seen_first m (via n edge) s.prev) in
      record {
        round = record {
          tree = (f, there, new_m, r.tree);
          low = λ k x.
              seen_more k m s x (λ e. omega (arith, at_new k e))
                (λ y. omega (arith, old k y, r.low k y));
          new = λ k x.
              ⊎_elim
                (λ y. let (is_in, high) = r.new k y in (ground (arith, is_in), old k is_in ∙ high))
                (λ e. (seen_new k (sym e), at_new k (sym e))) (Member-snoc k m s.next x);
        };
        keeps = λ k x. (ground (arith, x), old k x);
        fresh = λ k x.
            seen_more k m s x
              (λ e. inr (subst (λ j. Member j (s.next ++ m ∷ [])) e (Member-last m s.next))) inl;
        queue = λ k x. Member-before k m s.next x;
      }

  -- What an edge from an expanded node leads to, if its kind is followed.
  unfoldable pub IsOffer : ℕ → ℕ → Option ℕ → Type 0
  IsOffer n edge none = Unit {0}
  IsOffer n edge (some m) = Follows v kinds undirected n edge m

  abbrev pub IsSeen : Option ℕ → Search → Type 0
  IsSeen none s = Unit {0}
  IsSeen (some m) s = seen m s.prev ≡ true

  offer-Grows :
      (d n edge : ℕ) (o : Option ℕ) (s : Search)
      → IsRound d s
      → seen n s.prev ≡ true
      → level n s.prev ≡ d
      → IsOffer n edge o
      → Grows d s (offer n edge o s) × IsSeen o (offer n edge o s)
  unfolding offer try_node IsOffer
  offer-Grows d n edge none s r there at_d f = (Grows-refl d s r, tt)
  offer-Grows d n edge (some m) s r there at_d f = elim (Bool-cases (seen m s.prev)) [
    | inl old ↦ rw old (Grows-refl d s r, old)
    | inr new_m ↦
        rw new_m (try_new-Grows d n edge m s r there at_d f new_m, seen_first m (via n edge) s.prev)
  ]

  pub forward-IsOffer :
      (n edge : ℕ) → Member edge (v.outs n) → IsOffer n edge (forward v kinds edge)
  unfolding IsOffer Follows
  forward-IsOffer n edge x = known (forward v kinds edge) refl
    where
      known : (o : Option ℕ) → forward v kinds edge ≡ o → IsOffer n edge o
      known none e = tt
      known (some m) e = inl (x, e)

  pub backward-IsOffer :
      (n edge : ℕ)
      → undirected ≡ true
      → Member edge (v.ins n)
      → IsOffer n edge (backward v kinds edge)
  unfolding IsOffer Follows
  backward-IsOffer n edge u x = known (backward v kinds edge) refl
    where
      known : (o : Option ℕ) → backward v kinds edge ≡ o → IsOffer n edge o
      known none e = tt
      known (some m) e = inr (u, x, e)

  revisit : (d c : ℕ) (s t : Search) → Grows d (record s { visits = c }) t → Grows d s t
  revisit d c s t g = record { round = g.round; keeps = g.keeps; fresh = g.fresh; queue = g.queue }

  -- Every node that an edge of the list leads to is seen.
  unfoldable pub Covers : (ℕ → Option ℕ) → List ℕ → Search → Type 0
  Covers lead edges s = (i : ℕ) → Member i edges → IsSeen (lead i) s

  pub IsSeen-Grows : (d : ℕ) (o : Option ℕ) (s t : Search) → Grows d s t → IsSeen o s → IsSeen o t
  IsSeen-Grows d none s t g x = tt
  IsSeen-Grows d (some m) s t g x = (g.keeps m x).0

  -- One edge more.
  more-Covers :
      (d i : ℕ) (lead : ℕ → Option ℕ) (edges : List ℕ) (s t : Search)
      → Grows d s t
      → IsSeen (lead i) s
      → Covers lead edges t
      → Covers lead (i ∷ edges) t
  unfolding Covers
  more-Covers d i lead edges s t g x c j (inl e) =
      subst (λ k. IsSeen (lead k) t) e (IsSeen-Grows d (lead i) s t g x)
  more-Covers d i lead edges s t g x c j (inr m) = c j m

  pub scan_in-Grows :
      (d n : ℕ) (edges : List ℕ) (s : Search)
      → IsRound d s
      → seen n s.prev ≡ true
      → level n s.prev ≡ d
      → ((i : ℕ) → Member i edges → IsOffer n i (backward v kinds i))
      → Grows d s (scan_in v kinds n edges s)
        × Covers (backward v kinds) edges (scan_in v kinds n edges s)
  unfolding scan_in Covers
  scan_in-Grows d n [] s r there at_d f = (Grows-refl d s r, λ i x. absurd x)
  scan_in-Grows d n (i ∷ is) s r there at_d f =
      let t = offer n i (backward v kinds i) s in
      let (g, x) = offer-Grows d n i (backward v kinds i) s r there at_d (f i (inl refl)) in
      let (yet, same) = g.keeps n there in
      let (h, c) = scan_in-Grows d n is t g.round yet (same ∙ at_d) (λ j y. f j (inr y)) in
      (Grows-trans d s t _ g h, more-Covers d i (backward v kinds) is t _ h x c)

  pub scan_out-Grows :
      (d n : ℕ) (edges : List ℕ) (s t : Search)
      → IsRound d s
      → seen n s.prev ≡ true
      → level n s.prev ≡ d
      → ((i : ℕ) → Member i edges → IsOffer n i (forward v kinds i))
      → scan_out v kinds n edges s ≡ some t
      → Grows d s t × Covers (forward v kinds) edges t
  unfolding scan_out Covers
  scan_out-Grows d n [] s t r there at_d f e =
      subst (λ u. Grows d s u × ((i : ℕ) → Member i [] → IsSeen (forward v kinds i) u))
        (some-injective _ _ e) (Grows-refl d s r, λ i x. absurd x)
  scan_out-Grows d n (i ∷ is) s t r there at_d f e =
      elim (Bool-cases (leb max_path_visits s.visits)) [
        | inl spent ↦ cc (rw spent at e)
        | inr left ↦
            let s' = record s { visits = suc s.visits } in
            let u = offer n i (forward v kinds i) s' in
            let (g, x) =
              offer-Grows d n i (forward v kinds i) s'
                (record { tree = r.tree; low = r.low; new = r.new }) there at_d (f i (inl refl)) in
            let (yet, same) = g.keeps n there in
            let (h, c) =
              scan_out-Grows d n is u t g.round yet (same ∙ at_d) (λ j y. f j (inr y))
                (rw left at e) in
            (
              Grows-trans d s u t (revisit d (suc s.visits) s u g) h,
              more-Covers d i (forward v kinds) is u t h x c,
            )
      ]
