-- ===== src/SessionUi/Laws.antt =====
-- About the preview and the conflicts of webui/src/utils/sessionUi.ts.
use ga_hub.Prelude.{
  ◌⊎◌, ℕ, zero, suc, ◌-◌, ◌≤◌, ◌<◌, ◌≡◌, refl, ap, ◌++◌, ◌∙◌, String, true, false, some, List, [],
  ◌∷◌, any, any-append, find?, find?_sound, take, length, length-append, truthy, ltb, Bool-cases,
  inl, inr, arith,
}
use ga_hub.SessionUi.{HubSession, is_session, session_preview}

length-take-le {ℓ} : {A : Type ℓ} (n : ℕ) (xs : List A) → length (take n xs) ≤ n
length-take-le zero xs = omega arith
length-take-le (suc n) [] = omega arith
length-take-le (suc n) (x ∷ xs) = omega (arith, length-take-le n xs)

take-take : {A : Type 0} (m n : ℕ) (xs : List A) → m ≤ n → take m (take n xs) ≡ take m xs
take-take zero n xs h = refl
take-take (suc m) zero xs h = absurd (omega (arith, h))
take-take (suc m) (suc n) [] h = refl
take-take (suc m) (suc n) (x ∷ xs) h = ap (λ l. x ∷ l) (take-take m n xs (omega (arith, h)))

-- The preview of sessions that hold the current one, when at least one is asked for, shows the current one
-- and is no longer than asked for. It is as many of the first sessions as asked for where the current one
-- is among them, and otherwise one fewer of them with the current one behind.
pub session_preview-any :
    (sessions : List HubSession) (id : String) (current : HubSession) (limit : ℕ)
    → truthy id ≡ true
    → find? (is_session id) sessions ≡ some current
    → 0 < limit
    → let preview = session_preview sessions (some id) limit in
      (any (is_session id) preview ≡ true)
      × (length preview ≤ limit)
      × (((any (is_session id) (take limit sessions) ≡ false)
            × (preview ≡ take (limit - 1) sessions ++ current ∷ []))
          ⊎ ((any (is_session id) (take limit sessions) ≡ true) × (preview ≡ take limit sessions)))
unfolding session_preview
session_preview-any sessions id current limit t f h =
    let positive : ltb limit 1 ≡ false = ground (arith, h) in
    elim (Bool-cases (any (is_session id) (take limit sessions))) [
      | inl e ↦ rw (positive, t, e) (e, length-take-le limit sessions, inr (refl, refl))
      | inr e ↦
          rw (positive, t, e, f)
            (
              any-append (is_session id) (take (limit - 1) (take limit sessions)) (current ∷ [])
                  ∙ ground (arith, find?_sound (is_session id) sessions current f),
              omega (
                arith,
                h,
                length-append (take (limit - 1) (take limit sessions)) (current ∷ []),
                length-take-le (limit - 1) (take limit sessions),
              ),
              inl (
                refl,
                ap (λ l. l ++ current ∷ []) (take-take (limit - 1) limit sessions (omega arith)),
              ),
            )
    ]
