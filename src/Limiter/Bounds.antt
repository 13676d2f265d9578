-- ===== src/Limiter/Bounds.antt =====
-- The bounds of the limiter.
use swift_proof.Prelude.{
  Bool, Bool-cases, Member, Option, String, [], and_split, ap, arith, false, if◌then◌else◌, inl,
  inr, leb, length, ltb, none, not, refl, some, suc, sym, take, text_eq, text_refl, true, zero, ℕ,
  ◌&&◌, ◌+◌, ◌==◌, ◌∙◌, ◌∷◌, ◌≡◌, ◌≢◌, ◌≤◌, ◌⊎◌,
}
use swift_proof.Prelude.Dict.{
  Dict, delete, get, get-delete, get-put, is_some, length-delete, length-put, put,
}
use swift_proof.Limiter.{
  MapOrder, WindowLimiter, allow, allow_now, count_of, evict, eviction_sample, lowest, make_room,
  max_limiter_keys, roll, victim,
}

-- At most `maxLimiterKeys` keys, each with at most `limit` events.
pub record IsBounded (l : WindowLimiter) : Type 0 where
  pub few_keys : length l.counts ≤ max_limiter_keys
  pub within : (k : String) (n : ℕ) → get k l.counts ≡ some n → n ≤ l.limit

-- What a call answers and leaves, by the start and the counts of the window it falls in.
pub record IsAllowed (key : String) (start : ℕ) (counts : Dict ℕ) (l : WindowLimiter)
    (r : WindowLimiter × Bool) : Type 0 where
  pub said : r.1 ≡ ltb (count_of (get key counts)) l.limit
  pub counted : count_of (get key r.0.counts) ≡ count_of (get key counts) + (if r.1 then 1 else 0)
  pub other : (j : String) → key ≢ j → (get j r.0.counts ≡ get j counts) ⊎ (get j r.0.counts ≡ none)
  pub started : r.0.start ≡ start
  pub limited : r.0.limit ≡ l.limit
  pub kept : r.0.window ≡ l.window

delete_found :
    (k : String) (d : Dict ℕ) (n : ℕ) → get k d ≡ some n → suc (length (delete k d)) ≤ length d
unfolding get delete
delete_found k [] n h = cc
delete_found k ((j, m) ∷ d) n h = ground (arith, delete_found k d n, length-delete k d)

lowest-Member : (best : String × ℕ) (es : Dict ℕ) → Member (lowest best es) (best ∷ es)
unfolding lowest
lowest-Member best [] = inl refl
lowest-Member best (e ∷ es) =
    pick (ltb e.1 best.1) (lowest-Member (if ltb e.1 best.1 then e else best) es)
  where
    pick :
        (b : Bool)
        → Member (lowest (if b then e else best) es) ((if b then e else best) ∷ es)
        → Member (lowest (if b then e else best) es) (best ∷ e ∷ es)
    pick true m = inr m
    pick false (inl p) = inl p
    pick false (inr m) = inr (inr m)

Member-take : (n : ℕ) (x : String × ℕ) (xs : Dict ℕ) → Member x (take n xs) → Member x xs
Member-take zero x xs m = absurd m
Member-take (suc n) x [] m = absurd m
Member-take (suc n) x (y ∷ ys) (inl p) = inl p
Member-take (suc n) x (y ∷ ys) (inr m) = inr (Member-take n x ys m)

victim-Member :
    (es : Dict ℕ)
    → ltb 0 (length es) ≡ true
    → (n : ℕ) × Member (victim (take eviction_sample es), n) es
unfolding victim
victim-Member [] h = cc
victim-Member (e ∷ es) h =
    let best = lowest e (take 7 es) in
    (best.1, Member-take eviction_sample best (e ∷ es) (lowest-Member e (take 7 es)))

module _ (order : MapOrder) where
  evict-length :
      (counts : Dict ℕ)
      → ltb 0 (length counts) ≡ true
      → suc (length (evict order counts)) ≤ length counts
  unfolding evict
  evict-length counts h =
      let (n, m) = victim-Member (order.visit counts) (order.visit_some counts h) in
      delete_found _ counts n (order.visit_found counts _ n m)

  make_room-length :
      (key : String) (counts : Dict ℕ)
      → length counts ≤ max_limiter_keys
      → (length (make_room order key counts) ≤ max_limiter_keys)
        × (get key counts ≡ none → suc (length (make_room order key counts)) ≤ max_limiter_keys)
  unfolding make_room
  make_room-length key counts h =
      elim (Bool-cases (not (is_some (get key counts)) && leb max_limiter_keys (length counts))) [
        | inl full ↦
            let (_, many) =
              and_split (not (is_some (get key counts))) (leb max_limiter_keys (length counts))
                full in
            let less = evict-length counts (ground (arith, many)) in
            rw full (omega (arith, less), (λ q. omega (arith, less)))
        | inr free ↦ rw free (h, (λ q. ground (arith, q, free)))
      ]

  make_room-seen :
      (key : String) (counts : Dict ℕ)
      → get key (make_room order key counts) ≡ none
      → get key counts ≡ none
  unfolding make_room
  make_room-seen key counts h = seen (get key counts) refl
    where
      seen : (o : Option ℕ) → get key counts ≡ o → o ≡ none
      seen none q = refl
      seen (some n) q = cc (q, rw q at h)

  evict-get :
      (counts : Dict ℕ) (j : String)
      → (get j (evict order counts) ≡ get j counts) ⊎ (get j (evict order counts) ≡ none)
  unfolding evict
  evict-get counts j =
      ground (arith, get-delete (victim (take eviction_sample (order.visit counts))) j counts)

  make_room-get :
      (key : String) (counts : Dict ℕ) (j : String)
      → (get j (make_room order key counts) ≡ get j counts)
        ⊎ (get j (make_room order key counts) ≡ none)
  unfolding make_room
  make_room-get key counts j =
      elim (Bool-cases (not (is_some (get key counts)) && leb max_limiter_keys (length counts))) [
        | inl full ↦ rw full (evict-get counts j)
        | inr free ↦ rw free (inl refl)
      ]

  put_room :
      (key : String) (n : ℕ) (room : Dict ℕ) (o : Option ℕ)
      → get key room ≡ o
      → length room ≤ max_limiter_keys
      → (o ≡ none → suc (length room) ≤ max_limiter_keys)
      → length (put key n room) ≤ max_limiter_keys
  put_room key n room none q kept grown = rw (length-put, q) (omega (arith, grown refl))
  put_room key n room (some m) q kept grown = rw (length-put, q) kept

  Bounded-put :
      (key : String) (l : WindowLimiter)
      → IsBounded l
      → suc (count_of (get key l.counts)) ≤ l.limit
      → IsBounded (record l {
        counts = put key (suc (count_of (get key l.counts))) (make_room order key l.counts);
      })
  Bounded-put key l h low =
      let room = make_room order key l.counts in
      let (kept, grown) = make_room-length key l.counts h.few_keys in
      record {
        few_keys =
            put_room key _ room (get key room) refl kept
              (λ q. grown (make_room-seen key l.counts q));
        within = λ k n q. ground (
          arith,
          get-put key k (suc (count_of (get key l.counts))) (make_room order key l.counts),
          make_room-get key l.counts k,
          h.within k n,
        );
      }

  allow_now-IsBounded :
      (key : String) (l : WindowLimiter) → IsBounded l → IsBounded (allow_now order key l).0
  unfolding allow_now
  allow_now-IsBounded key l h = elim (Bool-cases (leb l.limit (count_of (get key l.counts)))) [
    | inl full ↦ rw full (record {
      few_keys = (make_room-length key l.counts h.few_keys).0;
      within = λ k n q. ground (arith, make_room-get key l.counts k, h.within k n);
    })
    | inr free ↦ rw free (Bounded-put key l h (ground (arith, free)))
  ]

  roll-IsBounded : (now : ℕ) (l : WindowLimiter) → IsBounded l → IsBounded (roll now l)
  unfolding roll get
  roll-IsBounded now l h = elim (Bool-cases (leb (l.start + l.window) now)) [
    | inl over ↦ rw over (record { few_keys = omega arith; within = λ k n q. cc })
    | inr inside ↦ rw inside h
  ]

  make_room-count :
      (key : String) (counts : Dict ℕ)
      → count_of (get key (make_room order key counts)) ≡ count_of (get key counts)
  make_room-count key counts = elim (make_room-get key counts key) [
    | inl e ↦ ap count_of e
    | inr e ↦ ap count_of (e ∙ sym (make_room-seen key counts e))
  ]

  -- What one call leaves and answers, by what was counted for its key.
  IsCounted : String → WindowLimiter → WindowLimiter × Bool → Type 0
  IsCounted key l (l', allowed) =
      (allowed ≡ ltb (count_of (get key l.counts)) l.limit)
      × (count_of (get key l'.counts) ≡ count_of (get key l.counts) + (if allowed then 1 else 0))
      × (l' ≡ record l { counts = l'.counts })

  allow_now-IsCounted : (key : String) (l : WindowLimiter) → IsCounted key l (allow_now order key l)
  unfolding IsCounted allow_now
  allow_now-IsCounted key l = elim (Bool-cases (leb l.limit (count_of (get key l.counts)))) [
    | inl full ↦ rw full (ground (arith, full), omega (arith, make_room-count key l.counts), refl)
    | inr free ↦ rw (free, get-put, text_refl) (ground (arith, free), omega arith, refl)
  ]

  allow_now-other :
      (key : String) (l : WindowLimiter) (j : String)
      → key ≢ j
      → (get j (allow_now order key l).0.counts ≡ get j l.counts)
        ⊎ (get j (allow_now order key l).0.counts ≡ none)
  unfolding allow_now
  allow_now-other key l j apart = elim (Bool-cases (leb l.limit (count_of (get key l.counts)))) [
    | inl full ↦ rw full (make_room-get key l.counts j)
    | inr free ↦ rw (free, get-put, other) (make_room-get key l.counts j)
  ]
    where
      other : (key == j) ≡ false
      other = ground (arith, text_eq key j)

  allow_now-IsAllowed :
      (key : String) (l : WindowLimiter) → IsAllowed key l.start l.counts l (allow_now order key l)
  unfolding IsCounted
  allow_now-IsAllowed key l =
      let (said, counted, same) = allow_now-IsCounted key l in
      record {
        said = said;
        counted = counted;
        other = allow_now-other key l;
        started = ap (λ (x : WindowLimiter). x.start) same;
        limited = ap (λ (x : WindowLimiter). x.limit) same;
        kept = ap (λ (x : WindowLimiter). x.window) same;
      }

  -- `Allow` keeps at most `maxLimiterKeys` keys and at most `limit` events for each of them,
  -- whatever the order in which the map is visited. It allows an event exactly when fewer than
  -- `limit` were counted for its key in the window of the event, and counts one more for the key
  -- exactly when it does. The count of another key stays or is forgotten, and the limit and the
  -- length of a window stay. The window of an event is the last one, or it starts with the event
  -- and without counts if the last one is over.
  pub allow-IsBounded :
      (now : ℕ) (key : String) (l : WindowLimiter)
      → IsBounded l
      → IsBounded (allow order now key l).0
        × (leb (l.start + l.window) now ≡ true → IsAllowed key now [] l (allow order now key l))
        × (leb (l.start + l.window) now ≡ false
            → IsAllowed key l.start l.counts l (allow order now key l))
  unfolding allow roll
  allow-IsBounded now key l h = (
    allow_now-IsBounded key (roll now l) (roll-IsBounded now l h),
    (λ over. rw over (moved (allow_now-IsAllowed key (record l { start = now; counts = [] })))),
    (λ inside. rw inside (allow_now-IsAllowed key l)),
  )
    where
      moved :
          {r : WindowLimiter × Bool}
          → IsAllowed key now [] (record l { start = now; counts = [] }) r
          → IsAllowed key now [] l r
      moved a = record {
        said = a.said;
        counted = a.counted;
        other = a.other;
        started = a.started;
        limited = a.limited;
        kept = a.kept;
      }
