-- ===== src/Examples/Coverage.antt =====
-- A tracefile with two records of one file.
use Prim.Native.String.{String}
use swift_proof.Prelude.{List, [], false, map, refl, ◌∷◌, ◌≡◌}
use swift_proof.Profile.{Block, split_at}
use swift_proof.Profile.Merged.{IsSum, total}
use swift_proof.GoProfile.{parse_coverage, parse_go_profile}
use swift_proof.GoProfile.Kept.{parse_go_profile-IsSum, stated}
use swift_proof.Lcov.{
  failed, line_data, malformed, no_format, parse_lcov, profile, row_of, trim_return, truncated,
  unreadable,
}
use swift_proof.Lcov.Summed.{parse_lcov-IsSum, recorded}

abbrev tracefile : String
tracefile = "TN:\nSF:a.ts\nDA:3,1\nDA:2,0\nend_of_record\nSF:a.ts\nDA:3,4,x\nend_of_record\n"

abbrev blocks : List Block
blocks =
    record { file = "a.ts"; start_line = 2; end_line = 2; num_stmts = 1; count = 0 }
    ∷ record { file = "a.ts"; start_line = 3; end_line = 3; num_stmts = 1; count = 5 }
    ∷ []

parsed_test : parse_lcov 73 tracefile ≡ profile blocks
unfolding parse_lcov
parsed_test = refl

error_test :
    (parse_lcov 4 "DA:1" ≡ failed (malformed 1))
    × (parse_lcov 8 "SF:a.ts\n" ≡ failed truncated)
    × (parse_lcov 3 "TN:" ≡ failed no_format)
    × (parse_lcov 30 "SF:a.ts\nDA:0,1\nend_of_record" ≡ failed (malformed 2))
unfolding parse_lcov
error_test = (refl, refl, refl, refl)

-- A count is read as far as the digit that leaves the range.
number_test :
    (row_of "DA:1,99999999999999999999x" ≡ line_data 1 1073741824)
    × (row_of "DA:1,9999x" ≡ unreadable)
    × (row_of "DA:1,18446744073709551616" ≡ line_data 1 1073741824)
unfolding row_of
number_test = (refl, refl, refl)

parse_lcov-IsSum_example :
    IsSum "a.ts" 3 3 blocks (recorded "a.ts" 3 "" (map row_of (split_at 10 tracefile)))
unfolding parse_lcov
parse_lcov-IsSum_example = parse_lcov-IsSum 73 tracefile "a.ts" 3 blocks refl

abbrev go_profile : String
go_profile = "mode: set\nm/a.go:3.2,4.9 2 1\nm/a.go:3.12,4.20 1 0\n"

abbrev go_blocks : List Block
go_blocks = record { file = "m/a.go"; start_line = 3; end_line = 4; num_stmts = 2; count = 1 } ∷ []

go_test : parse_coverage 56 go_profile ≡ profile go_blocks
unfolding parse_coverage
go_test = refl

parse_go_profile-IsSum_example :
    IsSum "m/a.go" 3 4 go_blocks
      (total "m/a.go" 3 4 (stated false (map trim_return (split_at 10 go_profile))))
unfolding parse_go_profile
parse_go_profile-IsSum_example = parse_go_profile-IsSum 56 go_profile "m/a.go" 3 4 go_blocks refl

abbrev overflowing : String
overflowing =
    "mode: count\nm.go:3.1,3.9 1 9223372036854775807\nm.go:3.1,3.9 1 9223372036854775807\nm.go:3.1,3.9 1 2\n"

-- Three executed rows of one range whose counts add up to 2^64 leave a block that was not executed.
overflow_test :
    parse_go_profile 130 overflowing
    ≡ profile
        (record { file = "m.go"; start_line = 3; end_line = 3; num_stmts = 1; count = 0 } ∷ [])
unfolding parse_go_profile
overflow_test = refl
