-- ===== src/Match.antt =====
-- `MatchContext` of match.go and the functions it searches with. Match/Platform finds systems and
-- architectures, Match/Choose sets tags, Match/Search has the last phase, Match/Run the whole function;
-- Match/Sound and Match/Frame prove them.
pub mod Platform
pub mod Choose
pub mod Search
pub mod Run
pub mod Sound
pub mod Answer
pub mod Frame
pub mod Choice
use buildutil.Base.{Bool, Bytes, Error}
use buildutil.Context.{Context}
use buildutil.Tags.{CompilerError}

-- How a phase ends: the source returns the context, or goes on with it.
pub data Try : Type 0 where
  hit : Context → Try
  miss : Context → Try

-- The errors that stand in a `MatchError`.
pub data Reason : Type 0 where
  build_error : Error → Reason
  nil_build_constraint : Reason
  no_build_tags : Reason
  impossible_go_version : Reason
  compiler_error : CompilerError → Reason
  match_context_error : Reason

-- The results of `MatchContext`: a context, or a `MatchError` with its fields `Permanent` and `Err`.
pub data Outcome : Type 0 where
  matched : Context → Outcome
  failed : Bool → Reason → Outcome
