-- ===== src/Json/Case.antt =====
-- api/utils.ts and its copies in the other files of api/: `toCamel` renames the keys of what the
-- server answers, `toSnake` those of what is sent.
use bv_orchestrator.Json.{Json, null, bool, num, str, arr, obj, Elems, nil, cons, Props, end, prop}
use bv_orchestrator.Common.{
  ◌==◌, nat_eq, string_eq, if◌then◌else◌, ◌+++◌, is_lower, is_upper, lower_char, upper_char, code,
  String, ◌≡◌, refl, true, false, ◌&&◌,
}

-- `k.replace(/_([a-z])/g, (_, c) => c.toUpperCase())`: matches do not overlap
unfoldable pub camel_key : String → String
unfolding upper_char
camel_key String.[] = String.[]
camel_key (String.◌∷◌ c String.[]) = String.◌∷◌ c String.[]
camel_key (String.◌∷◌ c (String.◌∷◌ d s)) =
    let renamed = String.◌∷◌ (upper_char d) (camel_key s) in
    let kept = String.◌∷◌ c (camel_key (String.◌∷◌ d s)) in
    if code c == b'_' && is_lower (code d) then renamed else kept

-- `k.replace(/[A-Z]/g, (c) => "_" + c.toLowerCase())`
unfoldable pub snake_key : String → String
unfolding lower_char
snake_key String.[] = String.[]
snake_key (String.◌∷◌ c s) =
    if is_upper (code c)
    then "_" +++ String.◌∷◌ (lower_char c) (snake_key s)
    else String.◌∷◌ c (snake_key s)

-- `o[k] = v`: a key keeps its first place and takes the last value
unfoldable pub set_prop : String → Json → Props → Props
set_prop k v end = prop k v end
set_prop k v (prop j w ps) = if j == k then prop j v ps else prop j w (set_prop k v ps)

-- `Object.fromEntries`, on top of the object `o`
unfoldable pub assign : Props → Props → Props
unfolding set_prop
assign o end = o
assign o (prop k v ps) = assign (set_prop k v o) ps

module _ (rename : String → String) where
  -- `toCamel` and `toSnake` differ in the renaming of a key alone
  unfoldable mutual
    pub convert : Json → Json
    convert null = null
    convert (bool b) = bool b
    convert (num n) = num n
    convert (str s) = str s
    convert (arr vs) = arr (convert_elems vs)
    convert (obj ps) = obj (assign end (convert_props ps))

    pub convert_elems : Elems → Elems
    convert_elems nil = nil
    convert_elems (cons v vs) = cons (convert v) (convert_elems vs)

    -- the entries, before they are put together
    pub convert_props : Props → Props
    convert_props end = end
    convert_props (prop k v ps) = prop (rename k) (convert v) (convert_props ps)

unfoldable pub to_camel : Json → Json
unfolding convert assign camel_key
to_camel v = convert camel_key v

unfoldable pub to_snake : Json → Json
unfolding convert assign snake_key
to_snake v = convert snake_key v

sample_camel :
    to_camel (obj (prop "last_seen_at" (str "x_y") (prop "_1" null (prop "a_bC" null end))))
    ≡ obj (prop "lastSeenAt" (str "x_y") (prop "_1" null (prop "aBC" null end)))
unfolding to_camel
sample_camel = refl

-- two keys may be renamed to one: the later value stays
colliding_keys :
    to_camel (obj (prop "a_b" (bool true) (prop "aB" (bool false) end)))
    ≡ obj (prop "aB" (bool false) end)
unfolding to_camel
colliding_keys = refl

sample_snake : to_snake (obj (prop "packageId" null end)) ≡ obj (prop "package_id" null end)
unfolding to_snake
sample_snake = refl
