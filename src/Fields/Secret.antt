-- ===== src/Fields/Secret.antt =====
-- `SECRET_MODAL_CONTENT_CLOUD_PROVIDERS_FORM_FIELD_NAMES`,
-- `SECRET_MODAL_CONTENT_LOCAL_FORM_FIELDS`,
-- `SECRET_MODAL_CONTENT_FORM_FIELD_NAMES`,
-- console/ui/src/entities/secret-form-block/model/constants.ts.
use postgresql_cluster.Common.{String}

abbrev pub aws_access_key_id : String
aws_access_key_id = "AWS_ACCESS_KEY_ID"

abbrev pub aws_secret_access_key : String
aws_secret_access_key = "AWS_SECRET_ACCESS_KEY"

abbrev pub gcp_service_account_contents : String
gcp_service_account_contents = "GCP_SERVICE_ACCOUNT_CONTENTS"

abbrev pub do_api_token : String
do_api_token = "DO_API_TOKEN"

abbrev pub azure_subscription_id : String
azure_subscription_id = "AZURE_SUBSCRIPTION_ID"

abbrev pub azure_client_id : String
azure_client_id = "AZURE_CLIENT_ID"

abbrev pub azure_secret : String
azure_secret = "AZURE_SECRET"

abbrev pub azure_tenant : String
azure_tenant = "AZURE_TENANT"

abbrev pub hcloud_api_token : String
hcloud_api_token = "HCLOUD_API_TOKEN"

abbrev pub ssh_private_key : String
ssh_private_key = "SSH_PRIVATE_KEY"

abbrev pub username : String
username = "USERNAME"

abbrev pub password : String
password = "PASSWORD"

abbrev pub secret_type : String
secret_type = "type"

abbrev pub secret_name : String
secret_name = "name"
