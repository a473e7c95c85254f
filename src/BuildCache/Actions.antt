-- ===== src/BuildCache/Actions.antt =====
-- The texts of actions.
use makebelieve.Base.{
  ◌≡◌, refl, sym, subst, ◌↔◌, some, [], ◌∷◌, find_if_passes, ◌==◌, ℕ-HasTest, List-HasTest, list_eq,
  eq_iff,
}
use makebelieve.Text.{Bytes}
use makebelieve.Manifest.{Action, run, capture, copy, tracing}
use makebelieve.BuildCache.{action_text, action_from_text}

-- A text is read as an action exactly when it is that action's text.
pub action_from_text_iff :
    (text : Bytes) (a : Action) → (action_from_text text ≡ some a) ↔ (text ≡ action_text a)
unfolding action_from_text action_text list_eq
action_from_text_iff text a = (to, λ e. subst (λ t. action_from_text t ≡ some a) (sym e) (back a))
  where
    back : (a : Action) → action_from_text (action_text a) ≡ some a
    back run = refl
    back capture = refl
    back copy = refl
    back tracing = refl

    to : action_from_text text ≡ some a → text ≡ action_text a
    to h = sym (
        (eq_iff (action_text a) text).0
          (find_if_passes (λ x. action_text x == text) (run ∷ capture ∷ copy ∷ tracing ∷ []) h))
