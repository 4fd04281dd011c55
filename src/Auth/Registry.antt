-- ===== src/Auth/Registry.antt =====
-- The list of security handlers of libvncserver/auth.c: a linked list through the handlers themselves.
use libvncserver.Base.{
  ℕ, zero, suc, Bool, true, false, ◌==◌, if◌then◌else◌, List, [], ◌∷◌, Option, none, some,
}

-- The address of an `rfbSecurityHandler`: the library's two, and those of applications.
pub data Handler : Type 0 where
  vnc_auth : Handler
  none_auth : Handler
  application : ℕ → Handler

unfoldable pub same : Handler → Handler → Bool
same vnc_auth vnc_auth = true
same none_auth none_auth = true
same (application m) (application n) = m == n
same a b = false

-- `securityHandlers`, and the field `next` of each handler; none is NULL.
pub record Registry : Type 0 where
  pub first : Option Handler
  pub next : Handler → Option Handler

unfoldable pub set_next : Handler → Option Handler → Registry → Registry
unfolding same
set_next h o r = record r { next = λ g. if same g h then o else r.next g }

-- The handlers from a link on; none is a loop of the model without fuel.
unfoldable pub links : ℕ → Registry → Option Handler → Option (List Handler)
links fuel r none = some []
links zero r (some h) = none
links (suc fuel) r (some h) = elim (links fuel r (r.next h)) [ none ↦ none | some l ↦ some (h ∷ l) ]

unfoldable pub is_member : Handler → List Handler → Bool
unfolding same
is_member h [] = false
is_member h (g ∷ l) = if same g h then true else is_member h l

-- `rfbRegisterSecurityHandler`: it also registers what its handler is linked to.
unfoldable pub register : ℕ → Option Handler → Registry → Option Registry
unfolding links is_member set_next
register fuel none r = some r
register zero (some h) r = none
register (suc fuel) (some h) r = elim (links fuel r r.first) [
  | none ↦ none
  | some l ↦
      register fuel (r.next h)
        (if is_member h l then r else record (set_next h r.first r) { first = some h })
]

-- "while(cur)": the handler is unlinked where it is found behind `pre`.
unfoldable pub unlink : ℕ → Handler → Handler → Option Handler → Registry → Option Registry
unfolding set_next same
unlink fuel h pre none r = some r
unlink zero h pre (some cur) r = none
unlink (suc fuel) h pre (some cur) r = elim (same cur h) [
  | true ↦ some (set_next pre (r.next cur) r)
  | false ↦ unlink fuel h cur (r.next cur) r
]

-- The list without a handler: its head is taken off, or it is looked for from the head on.
unfoldable pub remove : ℕ → Handler → Registry → Option Registry
unfolding unlink same
remove fuel h r = elim r.first [
  | none ↦ some r
  | some g ↦ elim (same g h) [
    | true ↦ some (record r { first = r.next g })
    | false ↦ unlink fuel h g (some g) r
  ]
]

-- `rfbUnregisterSecurityHandler`: it goes on with `handler->next`, as it is behind the removal.
unfoldable pub unregister : ℕ → Option Handler → Registry → Option Registry
unfolding remove
unregister fuel none r = some r
unregister zero (some h) r = none
unregister (suc fuel) (some h) r = elim (remove fuel h r) [
  | none ↦ none
  | some r' ↦ unregister fuel (r'.next h) r'
]
