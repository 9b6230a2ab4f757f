-- ===== src/Build/Front.antt =====
-- How far into a content `shouldBuild` and `parseBuildConstraint` of buildutil.go read.
use buildutil.Base.{Bool, false, ◌++◌, Bytes, length, ◌≡◌, ap, ok, ◌>>=◌}
use buildutil.Context.{Context}
use buildutil.Tags.{Tags}
use buildutil.Header.{State, initial, header_loop}
use buildutil.Header.Lines.{lines}
use buildutil.Header.Kept.{Ended}
use buildutil.Header.Front.{parse_file_header-front}
use buildutil.Header.Plain.{StartsPlain}
use buildutil.Build.{Syntax, build_header, should_build, header_constraint, parse_build_constraint}

-- Two contents that have the same whole lines `t`, at whose end `parseFileHeader` is not inside a block
-- comment, and behind them each a line that is neither blank nor begins with a comment, have the same
-- answer, error and tags of `shouldBuild` and the same result of `parseBuildConstraint`, whatever the rest
-- of them is.
pub should_build-front :
    (syntax : Syntax) (u : Bool) (c : Context) (m : Tags) (t x y : Bytes) (s : State)
    → Ended t
    → header_loop (length t) (lines t) initial ≡ ok s
    → s.in_slash_star ≡ false
    → StartsPlain x
    → StartsPlain y
    → (should_build syntax u c (t ++ x) m ≡ should_build syntax u c (t ++ y) m)
      × (parse_build_constraint syntax (t ++ x) ≡ parse_build_constraint syntax (t ++ y))
unfolding should_build parse_build_constraint
should_build-front syntax u c m t x y s e run out plain_x plain_y =
    let front = parse_file_header-front t x y s e run out plain_x plain_y in
    (
      ap (λ r. r >>= λ h. build_header syntax u c h m) front,
      ap (λ r. r >>= λ h. header_constraint syntax h) front,
    )
