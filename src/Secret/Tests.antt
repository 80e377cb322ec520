-- ===== src/Secret/Tests.antt =====
-- Runs of the form of a secret.
use postgresql_cluster.Common.{refl}
use postgresql_cluster.Js.{str, Props, end, prop, field}
use postgresql_cluster.Fields.Secret
use postgresql_cluster.Secret.Body.{get_secret_body_from_values}
use postgresql_cluster.Samples.{sample_yup, sample-IsYup}
use postgresql_cluster.Secret.Schema.{add_secret_form_schema}
use postgresql_cluster.Secret.Laws.{IsComplete, schema-IsComplete}

abbrev filled : Props
filled = prop Secret.secret_type (str "aws") (
    prop Secret.secret_name (str "mine") (
      prop Secret.aws_access_key_id (str "id") (prop Secret.aws_secret_access_key (str "key") end)))

schema-IsComplete_example : IsComplete (get_secret_body_from_values filled)
unfolding field add_secret_form_schema
schema-IsComplete_example =
    schema-IsComplete sample_yup filled "aws" sample-IsYup refl (λ e. cc) refl
