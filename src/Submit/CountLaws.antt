-- ===== src/Submit/CountLaws.antt =====
-- How many secrets a component saves.
use postgresql_cluster.Common.{
  Bool, true, false, ◌≡◌, arith, List, [], ◌∷◌, map, ℕ, suc, ◌≤◌, if◌then◌else◌,
}
use postgresql_cluster.Js.{Js, truthy, ok, thrown}
use postgresql_cluster.Request.{Platform}
use postgresql_cluster.Submit.Session.{
  Effect, secret_posted, cluster_posted, toasted, navigated, error_caught, modal_closed,
  initial_session, run_all,
}
use postgresql_cluster.Submit.SecretLaws.{IsOrderly, created_by}
use postgresql_cluster.Submit.ComponentLaws.{ModalAttempt, modal_attempt, modal-IsOrderly}

-- The number of secrets that were saved.
abbrev pub saved_secrets : List Effect → ℕ
saved_secrets [] = 0
saved_secrets (secret_posted _ (ok _) ∷ done) = suc (saved_secrets done)
saved_secrets (effect ∷ done) = saved_secrets done

-- The server answers a saved secret with an object.
abbrev pub HasAnswers : List Effect → Type 0
HasAnswers [] = Unit
HasAnswers (secret_posted _ (ok response) ∷ done) = (truthy response ≡ true) × HasAnswers done
HasAnswers (effect ∷ done) = HasAnswers done

-- Where no secret is posted once one is saved, and the server answers each saved secret with an
-- object, at most one is saved.
saved_secrets-IsOrderly :
    (done : List Effect)
    → IsOrderly done
    → HasAnswers done
    → saved_secrets done ≤ (if truthy (created_by done) then 1 else 0)
saved_secrets-IsOrderly [] _ _ = omega arith
saved_secrets-IsOrderly (secret_posted _ (ok response) ∷ done) (fresh, orderly) (here, answers) =
    ground (arith, saved_secrets-IsOrderly done orderly answers, fresh, here)
saved_secrets-IsOrderly (secret_posted _ thrown ∷ done) (fresh, orderly) answers =
    saved_secrets-IsOrderly done orderly answers
saved_secrets-IsOrderly (cluster_posted _ _ ∷ done) (named, orderly) answers =
    saved_secrets-IsOrderly done orderly answers
saved_secrets-IsOrderly (toasted _ _ ∷ done) orderly answers =
    saved_secrets-IsOrderly done orderly answers
saved_secrets-IsOrderly (navigated ∷ done) orderly answers =
    saved_secrets-IsOrderly done orderly answers
saved_secrets-IsOrderly (error_caught ∷ done) orderly answers =
    saved_secrets-IsOrderly done orderly answers
saved_secrets-IsOrderly (modal_closed ∷ done) orderly answers =
    saved_secrets-IsOrderly done orderly answers

le_one : (n : ℕ) (b : Bool) → n ≤ (if b then 1 else 0) → n ≤ 1
le_one n true h = h
le_one n false h = omega (arith, h)

-- Over all attempts of the dialog, if the server answers each saved secret with an object, at
-- most one secret is saved.
pub modal-saved_secrets :
    (platform : Platform) (expert : Bool) (current_project : Js) (attempts : List ModalAttempt)
    (custom : Js)
    → HasAnswers
        (run_all
          (map (modal_attempt platform expert current_project) attempts)
          (initial_session custom)).done
    → saved_secrets
        (run_all
          (map (modal_attempt platform expert current_project) attempts)
          (initial_session custom)).done
      ≤ 1
modal-saved_secrets platform expert current_project attempts custom answers = le_one _ _ (
    saved_secrets-IsOrderly
      (run_all (map (modal_attempt platform expert current_project) attempts)
        (initial_session custom)).done
      (modal-IsOrderly platform expert current_project attempts custom) answers)
