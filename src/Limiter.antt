-- ===== src/Limiter.antt =====
-- hub/internal/server/ratelimit.go: the limiter that counts events per key in fixed windows. Times
-- are natural numbers; the mutex makes each `Allow` one step.
pub mod Bounds
use swift_proof.Prelude.{
  Bool, Member, Option, String, [], false, if◌then◌else◌, leb, length, ltb, none, not, some, suc,
  take, true, ℕ, ◌&&◌, ◌+◌, ◌∷◌, ◌≡◌,
}
use swift_proof.Prelude.Dict.{Dict, delete, get, is_some, put}

-- `maxLimiterKeys`
abbrev pub max_limiter_keys : ℕ
max_limiter_keys = 10000

-- `evictionSample`
abbrev pub eviction_sample : ℕ
eviction_sample = 8

-- The order in which Go visits a map, which is not fixed: its entries are those of the map, and
-- there is one if the map has one.
pub record MapOrder : Type 0 where
  pub visit : Dict ℕ → Dict ℕ
  pub visit_found : (m : Dict ℕ) (k : String) (n : ℕ) → Member (k, n) (visit m) → get k m ≡ some n
  pub visit_some : (m : Dict ℕ) → ltb 0 (length m) ≡ true → ltb 0 (length (visit m)) ≡ true

-- `windowLimiter`
pub record WindowLimiter : Type 0 where
  pub limit : ℕ
  pub window : ℕ
  pub start : ℕ
  pub counts : Dict ℕ

-- The loop of `evict`: the first of the sampled entries with the lowest count.
unfoldable pub lowest : String × ℕ → Dict ℕ → String × ℕ
lowest best [] = best
lowest best (e ∷ es) = lowest (if ltb e.1 best.1 then e else best) es

unfoldable pub victim : Dict ℕ → String
unfolding lowest
victim [] = ""
victim (e ∷ es) = (lowest e es).0

-- `Allow` empties the counts when the window is over.
unfoldable pub roll : ℕ → WindowLimiter → WindowLimiter
roll now l = if leb (l.start + l.window) now then record l { start = now; counts = [] } else l

abbrev pub count_of : Option ℕ → ℕ
count_of none = 0
count_of (some n) = n

module _ (order : MapOrder) where
  unfoldable pub evict : Dict ℕ → Dict ℕ
  unfolding victim delete
  evict counts = delete (victim (take eviction_sample (order.visit counts))) counts

  unfoldable pub make_room : String → Dict ℕ → Dict ℕ
  unfolding evict
  make_room key counts =
      if not (is_some (get key counts)) && leb max_limiter_keys (length counts)
      then evict counts
      else counts

  unfoldable pub allow_now : String → WindowLimiter → WindowLimiter × Bool
  unfolding make_room
  allow_now key l =
      let count = count_of (get key l.counts) in
      let counts = make_room key l.counts in
      if leb l.limit count
      then (record l { counts = counts }, false)
      else (record l { counts = put key (suc count) counts }, true)

  -- `Allow`
  unfoldable pub allow : ℕ → String → WindowLimiter → WindowLimiter × Bool
  unfolding allow_now roll
  allow now key l = allow_now key (roll now l)
