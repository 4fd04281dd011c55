-- ===== src/Auth/Guarded.antt =====
-- The list of handlers of a server with a password, in libvncserver/auth.c.
use libvncserver.Base.{
  ℕ, suc, true, ◌≡◌, ◌⊎◌, inl, inr, refl, sym, List, [], ◌∷◌, Option, none, some, subst,
}
use libvncserver.Auth.Registry.{
  Handler, vnc_auth, none_auth, Registry, same, set_next, links, is_member, register, unlink,
  remove, unregister,
}
use libvncserver.Auth.Session.{offer}

-- Only the library's handler for passwords is in the list, and nothing is linked behind it.
pub record IsGuarded (r : Registry) : Type 0 where
  pub vnc_last : r.next vnc_auth ≡ none
  pub none_last : r.next none_auth ≡ none
  pub only_vnc : (r.first ≡ none) ⊎ (r.first ≡ some vnc_auth)

-- The two lists that it can be.
guarded_cases :
    (P : Registry → Type 0)
    → ((next : Handler → Option Handler)
        → next vnc_auth ≡ none
        → next none_auth ≡ none
        → P (record { first = none; next = next }))
    → ((next : Handler → Option Handler)
        → next vnc_auth ≡ none
        → next none_auth ≡ none
        → P (record { first = some vnc_auth; next = next }))
    → (r : Registry) → IsGuarded r
    → P r
guarded_cases P p q r g = elim g.only_vnc [
  | inl e ↦
      subst (λ o. P (record { first = o; next = r.next })) (sym e) (p r.next g.vnc_last g.none_last)
  | inr e ↦
      subst (λ o. P (record { first = o; next = r.next })) (sym e) (q r.next g.vnc_last g.none_last)
]

-- The handlers that a client can choose_type from.
pub record Links (fuel : ℕ) (r : Registry) : Type 0 where
  pub list : List Handler
  pub follows : links fuel r r.first ≡ some list
  pub safe : (list ≡ []) ⊎ (list ≡ vnc_auth ∷ [])

pub guarded-Links : (fuel : ℕ) (r : Registry) → IsGuarded r → Links (suc fuel) r
unfolding links
guarded-Links fuel =
    guarded_cases (Links (suc fuel))
      (λ next v n. record { list = []; follows = refl; safe = inl refl })
      (λ next v n. record { list = vnc_auth ∷ []; follows = rw v refl; safe = inr refl })

-- What `rfbSendSecurityTypeList` leaves of the list for a server with a password.
pub record Offers (fuel : ℕ) (r : Registry) : Type 0 where
  pub result : Registry
  pub offers : offer fuel true r ≡ some result
  pub guarded : IsGuarded result
  pub listed : (n : ℕ) → links (suc n) result result.first ≡ some (vnc_auth ∷ [])

pub guarded-Offers : (fuel : ℕ) (r : Registry) → IsGuarded r → Offers (suc (suc fuel)) r
unfolding offer unregister remove unlink register links is_member same set_next
guarded-Offers fuel =
    guarded_cases (Offers (suc (suc fuel)))
      (λ next v n. record {
        result = record (set_next vnc_auth none (record { first = none; next = next })) {
          first = some vnc_auth;
        };
        offers = rw n (rw v refl);
        guarded = record { vnc_last = refl; none_last = n; only_vnc = inr refl };
        listed = λ n. refl;
      })
      (λ next v n. record {
        result = record { first = some vnc_auth; next = next };
        offers = rw (v, n) (rw (register, links, v) (rw (register, v) refl));
        guarded = record { vnc_last = v; none_last = n; only_vnc = inr refl };
        listed = λ n. rw v refl;
      })
