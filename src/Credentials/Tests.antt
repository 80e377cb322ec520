-- ===== src/Credentials/Tests.antt =====
-- Runs of the block.
use postgresql_cluster.Common.{true, false, ◌≡◌, refl, none, some, [], ◌∷◌}
use postgresql_cluster.Js.{
  Js, undefined, bool, str, obj, Props, end, prop, field, truthy, arr, items, Items,
}
use postgresql_cluster.Fields.Cluster
use postgresql_cluster.Fields.Secret
use postgresql_cluster.Constants.Authentication
use postgresql_cluster.Constants.Providers
use postgresql_cluster.Samples.{sample_yup, sample-IsYup}
use postgresql_cluster.Validation.{local_fields_schema}
use postgresql_cluster.Credentials.{
  Block, shown_fields, mounted, set_use_defined, receive_secrets, with_value, IsReachable, shown,
  use_chosen, received, typed,
}
use postgresql_cluster.Credentials.ShownLaws.{IsLenient, shown-accepted, is_among, hidden-refused}

abbrev own_server_form : Props
own_server_form = prop Cluster.provider (obj (prop "code" (str Providers.local) end)) (
    prop Cluster.authentication_method (str Authentication.password)
      (prop Secret.username (str "root") (prop Secret.password (str "secret") end)))

-- The service answers that there are secrets; the user chooses to type a credential, asks to save
-- it, and turns back to a defined secret.
abbrev answered : Block
answered = receive_secrets (some 1) (mounted none (str "") own_server_form)

abbrev own_chosen : Block
own_chosen = set_use_defined false answered

abbrev saving : Block
saving = with_value Cluster.authentication_is_save_to_console (bool true) own_chosen

abbrev turned_back : Block
turned_back = set_use_defined true saving

answered-IsReachable : IsReachable answered
answered-IsReachable =
    received (some 1) (mounted none (str "") own_server_form) (shown none (str "") own_server_form)

saving-IsReachable : IsReachable saving
unfolding receive_secrets mounted field postgresql_cluster.Js.put
saving-IsReachable =
    typed Cluster.authentication_is_save_to_console (bool true) own_chosen refl
      (use_chosen false answered refl answered-IsReachable)

saving_test :
    shown_fields saving.secrets saving.values
    ≡ Cluster.authentication_method ∷ Cluster.is_use_defined_secret ∷ Secret.username
      ∷ Secret.password ∷ Cluster.secret_key_name ∷ Cluster.authentication_is_save_to_console ∷ []
unfolding shown_fields set_use_defined field receive_secrets mounted postgresql_cluster.Js.put
saving_test = refl

turned_back_test :
    shown_fields turned_back.secrets turned_back.values
    ≡ Cluster.authentication_method ∷ Cluster.is_use_defined_secret ∷ Cluster.secret_id ∷ []
unfolding shown_fields set_use_defined field postgresql_cluster.Js.put receive_secrets mounted
turned_back_test = refl

sample-IsLenient : IsLenient sample_yup
sample-IsLenient = record { optional = λ v. refl; of_bool = λ b. refl }

-- The same form with a name for the secret.
abbrev named : Block
named = with_value Cluster.secret_key_name (str "key") saving

shown-accepted_example : local_fields_schema sample_yup named.values ≡ true
unfolding shown_fields field postgresql_cluster.Js.put set_use_defined receive_secrets mounted
shown-accepted_example =
    shown-accepted sample_yup named sample-IsLenient
      (typed Cluster.secret_key_name (str "key") saving refl saving-IsReachable) refl refl
      (refl, (refl, (refl, (refl, (refl, (refl, tt))))))

abbrev unnamed : Props
unnamed = (with_value Cluster.secret_key_name (str "") turned_back).values

hidden-refused_example :
    (local_fields_schema sample_yup unnamed ≡ false)
    × (is_among Cluster.secret_key_name (shown_fields (some 1) unnamed) ≡ false)
unfolding field postgresql_cluster.Js.put set_use_defined receive_secrets mounted
hidden-refused_example =
    hidden-refused sample_yup (some 1) unnamed sample-IsYup refl refl refl refl refl
