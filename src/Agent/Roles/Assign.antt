-- ===== src/Agent/Roles/Assign.antt =====
-- After an update of a role, its column is the one that was asked for, and the others keep theirs.
use dust_monitoring.Prelude.{
  ◌≡◌, refl, sym, ap, ◌∙◌, true, false, Option, none, some, [], ◌∷◌, map, any, if◌then◌else◌, Text,
  equal, equal_iff, arith, Bool-cases, inl, inr, bind,
}
use dust_monitoring.Agent.Judge.{updated}
use dust_monitoring.Agent.Roles.{
  Roles, RoleResolver, component_to_column, put_role, find_role, fill_roles, refresh, set_component,
  update_component, column_for_role,
}

abbrev or_in : Option Text → Option Text → Option Text
or_in none o = o
or_in (some v) o = some v

abbrev match : Text → Text × Text → Option Text
match k (j, c) = if equal j k then some c else none

unfoldable last_match : Text → Roles → Option Text
last_match k [] = none
last_match k (r ∷ rs) = or_in (last_match k rs) (match k r)

equal_same : (a b c : Text) → equal a b ≡ true → equal a c ≡ equal b c
equal_same a b c h = ground (arith, equal_iff a b)

equal_apart : (a b c : Text) → equal a b ≡ false → equal a c ≡ true → equal b c ≡ false
equal_apart a b c h g = ground (arith, equal_iff a b, equal_iff a c, equal_iff b c)

find_role-put_role :
    (k q v : Text) (t : Roles)
    → find_role (put_role k v t) q ≡ (if equal k q then some v else find_role t q)
unfolding find_role put_role
find_role-put_role k q v [] = refl
find_role-put_role k q v ((j, w) ∷ t) = elim (Bool-cases (equal j k)) [
  | inl e ↦ rw e (rw (equal_same j k q e) (ground arith))
  | inr e ↦ rw e (elim (Bool-cases (equal j q)) [
    | inl g ↦ rw g (rw (equal_apart j k q e g) refl)
    | inr g ↦ rw g (find_role-put_role k q v t)
  ])
]

find_role-fill_roles :
    (q : Text) (rs t : Roles)
    → find_role (fill_roles t rs) q ≡ or_in (last_match q rs) (find_role t q)
unfolding fill_roles last_match
find_role-fill_roles q [] t = refl
find_role-fill_roles q ((k, v) ∷ rs) t =
    find_role-fill_roles q rs (put_role k v t) ∙ ground (arith, find_role-put_role k q v t)

or_in-none : (o : Option Text) → or_in o none ≡ o
or_in-none none = refl
or_in-none (some v) = refl

find_role-refresh :
    (r : RoleResolver) (k : Text) → find_role (refresh r).role_to_component k ≡ last_match k r.rows
unfolding refresh find_role
find_role-refresh r k = find_role-fill_roles k r.rows [] ∙ or_in-none (last_match k r.rows)

last_match-set_component :
    (k role comp : Text) (rs : Roles)
    → last_match k (map (set_component role comp) rs) ≡ (
        if equal k role
        then (if any (λ x. equal x.0 role) rs then some comp else none)
        else last_match k rs)
unfolding last_match
last_match-set_component k role comp [] = ground arith
last_match-set_component k role comp ((j, c) ∷ rs) =
    rw (last_match-set_component k role comp rs)
      (ground (arith, equal_iff k role, equal_iff j role, equal_iff j k))

abbrev assigned : Text → Text → RoleResolver → RoleResolver
assigned role comp r = record r { rows = map (set_component role comp) r.rows }

update_component-assigned :
    (role comp : Text) (r r' : RoleResolver)
    → update_component role comp r ≡ updated r' true
    → (refresh (assigned role comp r) ≡ r') × (any (λ x. equal x.0 role) r.rows ≡ true)
unfolding update_component
update_component-assigned role comp r r' h = ground arith

column_for_role-refresh :
    (r : RoleResolver) (k : Text)
    → column_for_role (refresh r) k ≡ bind (last_match k r.rows) component_to_column
unfolding column_for_role
column_for_role-refresh r k = ap (λ x. bind x component_to_column) (find_role-refresh r k)

-- Whenever `update_component` answers that it updated the role, the column of that role is the one
-- of the new component from then on, and every other role has the column that a refresh of the
-- old table gives it.
pub update_component-column :
    (role comp : Text) (r r' : RoleResolver)
    → update_component role comp r ≡ updated r' true
    → (k : Text)
    → column_for_role r' k
      ≡ (if equal k role then component_to_column comp else column_for_role (refresh r) k)
update_component-column role comp r r' h k =
    let (e, a) = update_component-assigned role comp r r' h in
    ap (λ x. column_for_role x k) (sym e)
    ∙ column_for_role-refresh (assigned role comp r) k
    ∙ ap (λ x. bind x component_to_column) (last_match-set_component k role comp r.rows)
    ∙ rw a (
        rw (column_for_role-refresh r k)
          (elim (Bool-cases (equal k role)) [ inl g ↦ rw g refl | inr g ↦ rw g refl ]))
