-- ===== src/Tags/Eval.antt =====
-- What `eval` answers, and what it records.
use buildutil.Base.{
  Bool, not, ◌&&◌, ◌||◌, [], none, some, Bytes, arith, ◌≡◌, refl, ap, same, has, has-put, Keys,
}
use buildutil.Context.{Context}
use buildutil.Tags.{Expr, tag, neg, and, or, Tags, note, match_name, eval}

-- The value of an expression where `v` gives the value of each tag.
unfoldable pub value : (Bytes → Bool) → Expr → Bool
value v (tag t) = v t
value v (neg x) = not (value v x)
value v (and x y) = value v x && value v y
value v (or x y) = value v x || value v y

-- The tag `t` stands somewhere in the expression.
unfoldable pub mentions : Expr → Bytes → Bool
mentions (tag v) t = same v t
mentions (neg x) t = mentions x t
mentions (and x y) t = mentions x t || mentions y t
mentions (or x y) t = mentions x t || mentions y t

-- The context satisfies the expression.
abbrev pub satisfies : Bool → Context → Expr → Bool
satisfies u c = value (match_name u c)

eval-value : (u : Bool) (c : Context) (x : Expr) (m : Tags) → (eval u c x m).0 ≡ satisfies u c x
unfolding eval value
eval-value u c (tag t) m = refl
eval-value u c (neg x) m = ap not (eval-value u c x m)
eval-value u c (and x y) m = ground (arith, eval-value u c x m, eval-value u c y (eval u c x m).1)
eval-value u c (or x y) m = ground (arith, eval-value u c x m, eval-value u c y (eval u c x m).1)

eval_nil : (u : Bool) (c : Context) (x : Expr) → (eval u c x none).1 ≡ none
unfolding eval note
eval_nil u c (tag t) = refl
eval_nil u c (neg x) = eval_nil u c x
eval_nil u c (and x y) = ground (arith, eval_nil u c x, eval_nil u c y)
eval_nil u c (or x y) = ground (arith, eval_nil u c x, eval_nil u c y)

-- The keys of the map, none where it is nil.
unfoldable pub keys : Tags → Keys
keys none = []
keys (some m) = m

pub has-note :
    (name : Bytes) (m : Keys) (k : Bytes)
    → (note name (some m) ≡ some (keys (note name (some m))))
      × (has (keys (note name (some m))) k ≡ (has m k || same name k))
unfolding note keys
has-note name m k = (refl, ground (arith, has-put name m k))

eval_records :
    (u : Bool) (c : Context) (x : Expr) (m : Keys) (k : Bytes)
    → ((eval u c x (some m)).1 ≡ some (keys (eval u c x (some m)).1))
      × (has (keys (eval u c x (some m)).1) k ≡ (has m k || mentions x k))
unfolding eval mentions
eval_records u c (tag t) m k = has-note t m k
eval_records u c (neg x) m k = eval_records u c x m k
eval_records u c (and x y) m k =
    ground (arith, eval_records u c x m k, eval_records u c y (keys (eval u c x (some m)).1) k)
eval_records u c (or x y) m k =
    ground (arith, eval_records u c x m k, eval_records u c y (keys (eval u c x (some m)).1) k)

-- `eval` gives the value of the expression in the context, whatever map it is handed; a nil map stays
-- nil, and of another one the keys afterwards are those before and every tag of the expression.
pub eval_lem :
    (u : Bool) (c : Context) (x : Expr) (all_tags : Tags)
    → ((eval u c x all_tags).0 ≡ satisfies u c x)
      × ((eval u c x none).1 ≡ none)
      × ((m : Keys) (k : Bytes)
          → ((eval u c x (some m)).1 ≡ some (keys (eval u c x (some m)).1))
            × (has (keys (eval u c x (some m)).1) k ≡ (has m k || mentions x k)))
eval_lem u c x all_tags = (eval-value u c x all_tags, eval_nil u c x, eval_records u c x)
