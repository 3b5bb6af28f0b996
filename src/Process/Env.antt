-- ===== src/Process/Env.antt =====
-- process/process.go: `mergeEnv` and `splitEnv`. The map of extra variables is an association list in
-- the order in which Go iterates over it; its keys are pairwise different, as a map's are.
mod Tests
use Prim.Native.Char.{code}
use go_toolbelt.Base.{
  ◌≡◌, refl, ap, Bool, false, ◌||◌, ◌==◌, String, List, [], ◌∷◌, ◌++◌, Option, some, none, str_eq,
  eq_iff, if◌then◌else◌, arith, append-nil, Bool-cases, Option-cases, inl, inr,
}

-- Name and value around the first equals sign.
pub split_env : String → Option (String × String)
split_env String.[] = none
split_env (String.◌∷◌ c s) =
    let rest = split_env s in
    if code c == b'='
    then some ("", s)
    else elim rest [ none ↦ none | some (k, v) ↦ some (String.◌∷◌ c k, v) ]

abbrev pub Extra : Type 0
Extra = List (String × String)

pub has_key : Extra → String → Bool
has_key [] k = false
has_key ((j, v) ∷ m) k = str_eq j k || has_key m k

-- Whether an item of the base is left out: `ok` and `replace` both hold.
pub is_replaced : Extra → String → Bool
unfolding split_env has_key
is_replaced extra item = elim (split_env item) [ none ↦ false | some (k, v) ↦ has_key extra k ]

pub keep_items : Extra → List String → List String
unfolding is_replaced
keep_items extra [] = []
keep_items extra (item ∷ base) =
    let rest = keep_items extra base in if is_replaced extra item then rest else item ∷ rest

-- `key + "=" + value`
unfoldable pub join_env : String → String → String
join_env String.[] v = String.◌∷◌ "=" v
join_env (String.◌∷◌ c k) v = String.◌∷◌ c (join_env k v)

pub join_items : Extra → List String
unfolding join_env
join_items [] = []
join_items ((k, v) ∷ m) = join_env k v ∷ join_items m

pub merge_env : List String → Extra → List String
unfolding keep_items join_items
merge_env base [] = base
merge_env base (e ∷ extra) = keep_items (e ∷ extra) base ++ join_items (e ∷ extra)

-- What an environment says of a name, in order.
pub values_of : String → List String → List String
unfolding split_env
values_of k [] = []
values_of k (item ∷ env) =
    let rest = values_of k env in
    elim (split_env item) [ none ↦ rest | some (j, v) ↦ if str_eq j k then v ∷ rest else rest ]

-- What the extra variables say of it: one value at most, where the keys are those of a map.
pub given : String → Extra → List String
given k [] = []
given k ((j, v) ∷ m) = let rest = given k m in if str_eq j k then v ∷ rest else rest

abbrev pub HasNoEquals : String → Type 0
HasNoEquals String.[] = Unit
HasNoEquals (String.◌∷◌ c s) = (code c == b'=' ≡ false) × HasNoEquals s

abbrev pub AreNames : Extra → Type 0
AreNames [] = Unit
AreNames ((k, v) ∷ m) = HasNoEquals k × AreNames m

split_env-join : (k v : String) → HasNoEquals k → split_env (join_env k v) ≡ some (k, v)
unfolding split_env join_env
split_env-join String.[] v h = refl
split_env-join (String.◌∷◌ c s) v h = ground (arith, split_env-join s v h.1)

values_of-append :
    (k : String) (xs ys : List String) → values_of k (xs ++ ys) ≡ values_of k xs ++ values_of k ys
unfolding values_of
values_of-append k [] ys = refl
values_of-append k (x ∷ xs) ys = ground (arith, values_of-append k xs ys)

values_of-keep :
    (k : String) (extra : Extra) (base : List String)
    → values_of k (keep_items extra base) ≡ (if has_key extra k then [] else values_of k base)
unfolding values_of keep_items is_replaced
values_of-keep k extra [] = ground arith
values_of-keep k extra (item ∷ base) = elim (Option-cases (split_env item)) [
  | inl p ↦ ground (arith, values_of-keep k extra base, p)
  | inr ((j, v), p) ↦ elim (Bool-cases (str_eq j k)) [
    | inl e ↦
        let q : has_key extra j ≡ has_key extra k = ap (has_key extra) ((eq_iff j k).0 e) in
        ground (arith, values_of-keep k extra base, p, q, e)
    | inr e ↦ ground (arith, values_of-keep k extra base, p, e)
  ]
]

values_of-join :
    (k : String) (extra : Extra) → AreNames extra → values_of k (join_items extra) ≡ given k extra
unfolding values_of join_items given
values_of-join k [] h = refl
values_of-join k ((j, v) ∷ m) h = ground (arith, split_env-join j v h.0, values_of-join k m h.1)

given-none : (k : String) (extra : Extra) → has_key extra k ≡ false → given k extra ≡ []
unfolding given has_key
given-none k [] h = refl
given-none k ((j, v) ∷ m) h = ground (arith, given-none k m)

-- In the merged environment a name that the extra variables have stands just for what they say of
-- it, and any other name for what the base says, where no extra name has an equals sign.
merge_env-values :
    (k : String) (base : List String) (extra : Extra)
    → AreNames extra
    → values_of k (merge_env base extra)
      ≡ (if has_key extra k then given k extra else values_of k base)
unfolding merge_env
merge_env-values k base [] h = ground arith
merge_env-values k base (e ∷ extra) h = ground (
  arith,
  values_of-append k (keep_items (e ∷ extra) base) (join_items (e ∷ extra)),
  values_of-keep k (e ∷ extra) base,
  values_of-join k (e ∷ extra) h,
  given-none k (e ∷ extra),
  append-nil (values_of k base),
)
