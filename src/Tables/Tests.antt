-- ===== src/Tables/Tests.antt =====
-- Runs of the tables.
use postgresql_cluster.Common.{◌/◌, ◌≡◌, ◌↔◌, refl, arith, true, false, [], ◌∷◌}
use postgresql_cluster.Js.{
  Js, undefined, bool, num, str, arr, obj, nil, cons, Props, end, prop, ok, chain, field, ◌≔◌,
}
use postgresql_cluster.Api.Secrets.{delete_secrets_by_id}
use postgresql_cluster.Dialogs.{remove_secret}
use postgresql_cluster.Dialogs.Laws.{says_success, after_run}
use postgresql_cluster.Tables.{
  secret_row, operation_row, described_row, server_row, cluster_row, table_data, row_of, Poll,
  open_log, receive, ticks,
}
use postgresql_cluster.Tables.SecretLaws.{requests, remove-unused}
use postgresql_cluster.Tables.PageLaws.{IsAskedFor, page_at, page_iff}
use postgresql_cluster.Tables.PollingLaws.{opened, received, until_complete, ticks-until_complete}

abbrev free_secret : Js
free_secret = obj (prop "id" (num 4) (prop "name" (str "key") (prop "is_used" (bool false) end)))

remove-unused_example :
    (requests (after_run (remove_secret (ok undefined) (secret_row free_secret))).done
      ≡ delete_secrets_by_id.request ("id" ≔ num 4) ∷ [])
    × (says_success (after_run (remove_secret (ok undefined) (secret_row free_secret))).done ≡ true)
unfolding field
remove-unused_example = remove-unused (ok undefined) free_secret

page_iff_example : IsAskedFor 27 (page_at 10 2) ↔ (2 ≡ 27 / 10)
page_iff_example = page_iff 10 27 2 (omega arith)

abbrev log_part : Js
log_part = obj (prop "log" (str "TASK") (prop "isComplete" (bool false) end))

abbrev whole_log : Js
whole_log = obj (prop "log" (str "TASK ok") (prop "isComplete" (bool true) end))

abbrev loaded_log : Poll
loaded_log = receive log_part open_log

ticks-until_complete_example :
    ticks (whole_log ∷ log_part ∷ []) loaded_log
    ≡ until_complete (whole_log ∷ log_part ∷ []) loaded_log
ticks-until_complete_example =
    ticks-until_complete (whole_log ∷ log_part ∷ []) loaded_log (received log_part open_log opened)

ticks_test : ticks (whole_log ∷ log_part ∷ []) loaded_log ≡ receive whole_log loaded_log
unfolding ticks receive field open_log
ticks_test = refl

running_test :
    field (operation_row (obj (prop "status" (str "in_progress") end))) "finished" ≡ str "-"
unfolding operation_row field postgresql_cluster.Js.◌⊕◌
running_test = refl

no_rows_test : table_data (row_of described_row) undefined ≡ ok (arr nil)
unfolding table_data
no_rows_test = refl

tags_test :
    field (server_row (obj (prop "tags" (obj (prop "nofailover" (bool true) end)) end))) "tags"
    ≡ arr (cons (str "nofailover: true") nil)
unfolding server_row field postgresql_cluster.Js.◌⊕◌
tags_test = refl

deploying_test :
    field
      (cluster_row
        (obj (prop "id" (num 1) (prop "name" (str "pg") (prop "status" (str "deploying") end)))))
      "name"
    ≡ obj (prop "children" (str "pg") end)
unfolding cluster_row field postgresql_cluster.Js.◌⊕◌
deploying_test = refl
