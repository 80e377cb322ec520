-- ===== src/Api/Settings.antt =====
-- The endpoints of console/ui/src/shared/api/api/settings.ts.
use postgresql_cluster.Common.{[], ◌∷◌, none, some}
use postgresql_cluster.Js.{undefined, field, to_string, ◌≔◌, ◌⊕◌}
use postgresql_cluster.Js.Text.{◌⧺◌}
use postgresql_cluster.Api.Kinds.{Endpoint, tag, list_tag, list_tags}

abbrev pub post_settings : Endpoint
post_settings = record {
  request = λ arg. record {
    url = "/settings";
    method = some "POST";
    params = none;
    body = field arg "requestCreateSetting";
  };
  provides = λ arg result. [];
  invalidates = λ arg. list_tag "Settings" ∷ [];
}

abbrev pub get_settings : Endpoint
get_settings = record {
  request = λ arg. record {
    url = "/settings";
    method = none;
    params =
        some
          ("name" ≔ field arg "name" ⊕ "offset" ≔ field arg "offset" ⊕ "limit" ≔ field arg "limit");
    body = undefined;
  };
  provides = λ arg result. list_tags "Settings" result;
  invalidates = λ arg. [];
}

abbrev pub patch_settings_by_name : Endpoint
patch_settings_by_name = record {
  request = λ arg. record {
    url = "/settings/" ⧺ to_string (field arg "name");
    method = some "PATCH";
    params = none;
    body = field arg "requestChangeSetting";
  };
  provides = λ arg result. [];
  invalidates = λ arg. tag "Settings" (field arg "id") ∷ [];
}
