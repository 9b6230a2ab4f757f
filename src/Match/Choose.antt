-- ===== src/Match/Choose.antt =====
-- The phases of `MatchContext` that set tags and cgo, and the checks for what cannot be changed.
use buildutil.Base.{
  Bool, true, false, not, ◌&&◌, ◌||◌, List, [], ◌∷◌, ◌++◌, if◌then◌else◌, Bytes, Keys, has, codes,
}
use buildutil.Context.{Context, Toolchain}
use buildutil.Platforms.{cgo_enabled}
use buildutil.Tags.{
  Expr, Found, lookup_tag, is_go_experiment_tag, is_go_release_tag, is_internal_tag,
}
use buildutil.Util.{strings_contains, strings_append, strings_remove_all}
use buildutil.Match.{Try, hit, miss}
use buildutil.Match.Platform.{holds_in, try_eval}

-- The new value of a tag list: without a tag that is negated, and with one that is not.
abbrev pub adjust : Found → List Bytes → Bytes → List Bytes
adjust r l name = if r.negated then (strings_remove_all l name).result else strings_append l name

module _ (x : Expr) where
  -- One round of the loop over GOEXPERIMENT tags.
  unfoldable pub set_experiment : Context → Bytes → Context
  set_experiment c name =
      let r = lookup_tag x name in
      if is_go_experiment_tag name && r.found
      then record c { tool_tags = adjust r c.tool_tags name }
      else c

  unfoldable pub set_experiments : List Bytes → Context → Context
  set_experiments [] c = c
  set_experiments (name ∷ names) c = set_experiments names (set_experiment c name)

  -- One round of the loop that applies all build tags.
  unfoldable pub set_build_tag : Context → Bytes → Context
  set_build_tag c tag =
      let r = lookup_tag x tag in
      if r.found then record c { build_tags = adjust r c.build_tags tag } else c

  unfoldable pub set_build_tags : List Bytes → Context → Context
  set_build_tags [] c = c
  set_build_tags (tag ∷ tags) c = set_build_tags tags (set_build_tag c tag)

  -- The loop that tries one build tag at a time. `orig` holds what the slice `orig` of the source holds:
  -- removing a tag writes into that slice, and `ctxt.BuildTags = orig` does not undo it.
  unfoldable pub quick_tags : Bool → List Bytes → List Bytes → Context → Try
  quick_tags u [] orig c = miss (record c { build_tags = orig })
  quick_tags u (tag ∷ tags) orig c =
      let r = lookup_tag x tag in
      let skipped = quick_tags u tags orig c in
      let left = if r.negated then (strings_remove_all orig tag).argument else orig in
      let later = quick_tags u tags left c in
      let now = record c { build_tags = adjust r orig tag } in
      if not r.found then skipped else if holds_in u now x then hit now else later

  unfoldable pub after_quick : Bool → List Bytes → List Bytes → Try → Try
  after_quick u tags saved (hit c) = hit c
  after_quick u tags saved (miss c) =
      try_eval u x (set_build_tags tags (record c { build_tags = saved }))

  -- `if len(buildTags) != 0 { ... }`
  unfoldable pub try_build_tags : Bool → List Bytes → Context → Try
  unfolding quick_tags after_quick
  try_build_tags u [] c = miss c
  try_build_tags u (tag ∷ tags) c =
      after_quick u (tag ∷ tags) c.build_tags (quick_tags u (tag ∷ tags) c.build_tags c)

  -- The tags that the loop above it collects in `buildTags`.
  unfoldable pub external_tags : Toolchain → Context → List Bytes → List Bytes
  external_tags t c [] = []
  external_tags t c (name ∷ names) =
      let rest = external_tags t c names in
      if not (is_internal_tag t c name) then name ∷ rest else rest

  -- The loop over release tags returns an error.
  unfoldable pub impossible_release : Toolchain → Context → List Bytes → Bool
  impossible_release t c [] = false
  impossible_release t c (name ∷ names) =
      let r = lookup_tag x name in
      let has_release = strings_contains c.release_tags name in
      let rest = impossible_release t c names in
      if is_go_release_tag t name && r.found
      then if r.negated && has_release || not r.negated && not has_release then true else rest
      else rest

  -- Toggling cgo.
  unfoldable pub try_cgo : Bool → Keys → Context → Try
  try_cgo u tags c =
      let toggled = record c { cgo_enabled = not c.cgo_enabled } in
      if has tags (codes "cgo") && (c.cgo_enabled || has cgo_enabled (c.goos ++ (b'/' ∷ c.goarch)))
      then (if holds_in u toggled x then hit toggled else miss c)
      else miss c
