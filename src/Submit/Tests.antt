-- ===== src/Submit/Tests.antt =====
-- Runs of the submissions.
use postgresql_cluster.Common.{true, false, refl, [], ◌∷◌, map, ◌≤◌, ◌≡◌}
use postgresql_cluster.Js.{
  Js, undefined, bool, num, str, obj, arr, nil, Props, end, prop, Result, ok, thrown, cons, field,
}
use postgresql_cluster.Fields.Cluster
use postgresql_cluster.Fields.Modal
use postgresql_cluster.Fields.SshKey
use postgresql_cluster.Samples.{sample_platform, local_values, custom_vars}
use postgresql_cluster.Submit.Session.{Replies, run_all, initial_session}
use postgresql_cluster.Submit.SecretLaws.{IsOrderly}
use postgresql_cluster.Submit.ComponentLaws.{
  FormAttempt, ModalAttempt, form_attempt, modal_attempt, form-IsOrderly, modal-IsOrderly,
}
use postgresql_cluster.Submit.Form.{first_secret_id, on_submit}
use postgresql_cluster.Submit.Page.{has_one_secret, form_buttons, default_buttons}
use postgresql_cluster.Submit.PageLaws.{PostsWith, cloud-PostsWith}
use postgresql_cluster.Submit.LeaveSteps.{navigations, created_clusters}
use postgresql_cluster.Submit.LeaveLaws.{by_form, by_dialog, submitted, submitted-navigations}
use postgresql_cluster.Submit.CountLaws.{saved_secrets, modal-saved_secrets}

-- The server saves the secret, and refuses the cluster at first.
abbrev refused : Replies
refused = record { secret = ok (obj (prop "id" (num 7) end)); cluster = thrown }

abbrev accepted : Replies
accepted = record { secret = ok (obj (prop "id" (num 8) end)); cluster = ok (obj end) }

abbrev saving_values : Props
saving_values = prop Cluster.authentication_is_save_to_console (bool true) local_values

abbrev attempt : Replies → FormAttempt
attempt replies = record { secrets = undefined; replies = replies; values = saving_values }

abbrev modal_try : Replies → ModalAttempt
modal_try replies = record {
  secrets = arr nil;
  replies = replies;
  values = local_values;
  secrets_fields = prop Modal.is_save_to_console (bool true) end;
}

form-IsOrderly_example :
    IsOrderly
      (run_all
        (map
          (form_attempt sample_platform false (str "1"))
          (attempt refused ∷ attempt accepted ∷ []))
        (initial_session undefined)).done
unfolding postgresql_cluster.Js.field
form-IsOrderly_example =
    form-IsOrderly sample_platform false (str "1") (attempt refused ∷ attempt accepted ∷ [])
      (refl, (refl, tt))

modal-IsOrderly_example :
    IsOrderly
      (run_all
        (map
          (modal_attempt sample_platform false (str "1"))
          (modal_try refused ∷ modal_try accepted ∷ []))
        (initial_session (obj custom_vars))).done
modal-IsOrderly_example =
    modal-IsOrderly sample_platform false (str "1") (modal_try refused ∷ modal_try accepted ∷ [])
      (obj custom_vars)

modal-saved_secrets_example :
    saved_secrets
      (run_all
        (map
          (modal_attempt sample_platform false (str "1"))
          (modal_try refused ∷ modal_try accepted ∷ []))
        (initial_session (obj end))).done
    ≤ 1
unfolding postgresql_cluster.Submit.Modal.submit_modal postgresql_cluster.Js.◌⊕◌
modal-saved_secrets_example =
    modal-saved_secrets sample_platform false (str "1")
      (modal_try refused ∷ modal_try accepted ∷ []) (obj end) (refl, tt)

-- A provider of a cloud with one secret.
abbrev cloud_values : Props
cloud_values = prop Cluster.creation_type (str "form") (
    prop Cluster.provider (obj (prop "code" (str "aws") end)) (
      prop Cluster.cluster_name (str "pg") (
        prop SshKey.ssh_public_key (str "ssh-rsa AAAA") (
          prop Cluster.environment_id (num 1) (
            prop Cluster.instance_config (obj (prop "code" (str "m5.large") end)) (
              prop Cluster.region_config
                (obj (
                  prop "code" (str "us-east-2") (
                    prop "cloud_image"
                      (obj (prop "image" (obj (prop "server_image" (str "ami-1") end)) end)) end)))
                end))))))

abbrev one_secret : Js
one_secret = arr (cons (obj (prop "id" (num 5) end)) nil)

cloud-PostsWith_example :
    (has_one_secret one_secret ≡ true)
    × (form_buttons (field cloud_values Cluster.provider) one_secret ≡ default_buttons)
    × PostsWith
        (first_secret_id one_secret)
        (on_submit sample_platform false
          (str "1")
          one_secret
          accepted
          cloud_values
          (initial_session undefined)).0.done
unfolding postgresql_cluster.Submit.Page.form_handler field first_secret_id
cloud-PostsWith_example =
    cloud-PostsWith sample_platform false (str "1") one_secret
      (on_submit sample_platform false (str "1") one_secret) accepted cloud_values refl refl refl

-- An attempt of the dialog that the server refuses, and one of the form that it accepts.
submitted-navigations_example :
    navigations
      (run_all
        (map (submitted sample_platform false (str "1")) (
          by_dialog one_secret refused cloud_values end
          ∷ by_form one_secret accepted cloud_values
          ∷ []))
        (initial_session undefined)).done
    ≡ created_clusters
        (run_all
          (map (submitted sample_platform false (str "1")) (
            by_dialog one_secret refused cloud_values end
            ∷ by_form one_secret accepted cloud_values
            ∷ []))
          (initial_session undefined)).done
submitted-navigations_example =
    submitted-navigations sample_platform false (str "1") undefined (
      by_dialog one_secret refused cloud_values end ∷ by_form one_secret accepted cloud_values ∷ [])

navigations_test :
    navigations
      (submitted sample_platform false
        (str "1")
        (by_form one_secret accepted cloud_values)
        (initial_session undefined)).0.done
    ≡ 1
unfolding on_submit
navigations_test = refl
