-- ===== src/GoCommand/Arguments.antt =====
-- The `-tags` argument of a command, read and written.
use buildutil.Base.{
  true, false, not, ◌&&◌, ◌||◌, List, [], ◌∷◌, ◌++◌, some, Bytes, codes, arith, ◌≡◌, ◌≢◌, refl, ◌∙◌,
  same, same_iff, strip, strip-append, strip-eq-some, join, split-join, join-split, AllLack,
  is_empty, has, has-append, Bool-cases, Option-cases, inl, inr,
}
use buildutil.Context.{Context}
use buildutil.Util.Environ.{Environ}
use buildutil.GoCommand.{
  base_tag, names_tag, unnamed_tags, merge_tag_args, split_next, extract_tag_args, replace_tag_args,
  go_command_context,
}

has-unnamed_tags :
    (old new : List Bytes) (k : Bytes)
    → has (unnamed_tags old new) k ≡ (has old k && not (names_tag new (base_tag k)))
unfolding unnamed_tags has
has-unnamed_tags [] new k = refl
has-unnamed_tags (arg ∷ old) new k = ground (arith, has-unnamed_tags old new k, same_iff arg k)

-- The merged tags are the new ones, and of the old ones those that no new tag sets or negates.
pub has-merge_tag_args :
    (old new : List Bytes) (k : Bytes)
    → has (merge_tag_args old new) k ≡ (has new k || has old k && not (names_tag new (base_tag k)))
unfolding merge_tag_args has names_tag
has-merge_tag_args [] new k = ground arith
has-merge_tag_args (o ∷ old) [] k = ground arith
has-merge_tag_args (o ∷ old) (n ∷ new) k =
    has-append (unnamed_tags (o ∷ old) (n ∷ new)) (n ∷ new) k
    ∙ ground (arith, has-unnamed_tags (o ∷ old) (n ∷ new) k)

tags_equals_lem :
    (v : Bytes)
    → (same (codes "-tags=" ++ v) (codes "--") ≡ false)
      × (same (codes "-tags=" ++ v) (codes "-tags") ≡ false)
      × (strip (codes "-tags=") (codes "-tags=" ++ v) ≡ some v)
tags_equals_lem v = (unfold same in refl, unfold same in refl, strip-append (codes "-tags=") v)

-- Where `extractTagArgs` finds tags in the arguments, replacing them by a list of tags that is not empty
-- and has no comma in any of its tags makes those the tags that `extractTagArgs` finds.
pub extract-replace_tag_args :
    (args tags : List Bytes)
    → extract_tag_args args ≢ []
    → tags ≢ []
    → AllLack b',' tags
    → extract_tag_args (replace_tag_args args tags) ≡ tags
unfolding extract_tag_args replace_tag_args
extract-replace_tag_args [] tags found ne lack = absurd (found refl)
extract-replace_tag_args (s ∷ rest) tags found ne lack = elim (Bool-cases (same s (codes "--"))) [
  | inl last ↦ absurd (found (ground (arith, last)))
  | inr option ↦ elim (Bool-cases (same s (codes "-tags"))) [
    | inl flag ↦ next rest option flag (λ e. found (ground (arith, option, flag, e)))
    | inr other ↦ elim (Option-cases (strip (codes "-tags=") s)) [
      | inl plain ↦
          let again =
            extract-replace_tag_args rest tags
              (λ e. found (ground (arith, option, other, plain, e))) ne lack in
          ground (arith, option, other, plain, again)
      | inr (v, joined) ↦
          let (a, b, c) = tags_equals_lem (join b',' tags) in
          ground (arith, option, other, joined, a, b, c, split-join b',' tags ne lack)
    ]
  ]
]
  where
    next :
        (r : List Bytes)
        → same s (codes "--") ≡ false
        → same s (codes "-tags") ≡ true
        → split_next r ≢ []
        → extract_tag_args (replace_tag_args (s ∷ r) tags) ≡ tags
    next [] option flag h = absurd (h refl)
    next (v ∷ r) option flag h = ground (arith, option, flag, split-join b',' tags ne lack)

-- Replacing the tags of the arguments by themselves changes nothing.
pub replace-extract_tag_args :
    (args : List Bytes)
    → extract_tag_args args ≢ []
    → replace_tag_args args (extract_tag_args args) ≡ args
unfolding extract_tag_args replace_tag_args
replace-extract_tag_args [] found = refl
replace-extract_tag_args (s ∷ rest) found = elim (Bool-cases (same s (codes "--"))) [
  | inl last ↦ ground (arith, last)
  | inr option ↦ elim (Bool-cases (same s (codes "-tags"))) [
    | inl flag ↦ next rest option flag
    | inr other ↦ elim (Option-cases (strip (codes "-tags=") s)) [
      | inl plain ↦
          let again =
            replace-extract_tag_args rest (λ e. found (ground (arith, option, other, plain, e))) in
          ground (arith, option, other, plain, again)
      | inr (v, joined) ↦ ground (
        arith,
        option,
        other,
        joined,
        join-split b',' v,
        strip-eq-some (codes "-tags=") s v joined,
      )
    ]
  ]
]
  where
    next :
        (r : List Bytes)
        → same s (codes "--") ≡ false
        → same s (codes "-tags") ≡ true
        → replace_tag_args (s ∷ r) (extract_tag_args (s ∷ r)) ≡ s ∷ r
    next [] option flag = ground (arith, option, flag)
    next (v ∷ r) option flag = ground (arith, option, flag, join-split b',' v)

merge_tag_args-nil : (old new : List Bytes) → is_empty new ≡ true → merge_tag_args old new ≡ old
unfolding merge_tag_args
merge_tag_args-nil [] [] e = refl
merge_tag_args-nil (o ∷ old) [] e = refl
merge_tag_args-nil old (n ∷ new) e = cc

append-ne-nil : (xs ys : List Bytes) → ys ≢ [] → xs ++ ys ≢ []
append-ne-nil [] ys h e = h e
append-ne-nil (x ∷ xs) ys h e = ground arith

merge_tag_args-ne-nil : (old new : List Bytes) → old ≢ [] → merge_tag_args old new ≢ []
unfolding merge_tag_args
merge_tag_args-ne-nil [] new h e = h refl
merge_tag_args-ne-nil (o ∷ old) [] h e = ground arith
merge_tag_args-ne-nil (o ∷ old) (n ∷ new) h e =
    append-ne-nil (unnamed_tags (o ∷ old) (n ∷ new)) (n ∷ new) (λ f. ground arith) e

-- The tags of a command whose arguments hold tags are these merged with the build tags of the context,
-- if the merged tags have no comma in them.
pub go_command_context-tags :
    (env0 : Environ) (c : Context) (name : Bytes) (args : List Bytes)
    → extract_tag_args args ≢ []
    → AllLack b',' (merge_tag_args (extract_tag_args args) c.build_tags)
    → extract_tag_args (go_command_context env0 c name args).args
      ≡ merge_tag_args (extract_tag_args args) c.build_tags
unfolding go_command_context
go_command_context-tags env0 c name args found lack = elim (Bool-cases (is_empty c.build_tags)) [
  | inl no_tags ↦
      ground (arith, no_tags, merge_tag_args-nil (extract_tag_args args) c.build_tags no_tags)
  | inr tags ↦
      let merged = merge_tag_args (extract_tag_args args) c.build_tags in
      let replaced =
        extract-replace_tag_args args merged found
          (merge_tag_args-ne-nil (extract_tag_args args) c.build_tags found) lack in
      ground (arith, tags, found, replaced)
]
