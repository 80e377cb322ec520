-- ===== src/Lib.antt =====
-- The console of postgresql_cluster (autobase): the code of its web interface that turns what a
-- user fills in into the requests that create a PostgreSQL cluster.
--
-- The program's parts. The repository holds Ansible playbooks (automation), a service in Go and a
-- database (console/service, console/db), and an interface in TypeScript (console/ui). This library
-- is about the interface. A user fills in the cluster form, or edits the same cluster as YAML. The
-- form starts from default values, its schema validates it, and a summary describes the cluster
-- beside it. On submission the interface saves the typed credentials as a secret if it is asked to,
-- maps the values of the form to a request, and posts the request. The request names the provider,
-- an environment in base64, the extra vars of the playbook, and for servers of one's own the
-- inventory. The client of the service sends it, and makes stale what its cache holds of the lists.
--
-- The parts of the library, with the code that they follow (paths from the repository's root; ui
-- stands for console/ui/src, and transform for ui/shared/lib/clusterValuesTransformFunctions.ts):
--   * Common: names of the libraries, tests and lemmas that the parts share.
--   * Js: values of JavaScript (Js.Value), objects with ordered properties and spread (Js.Object),
--     exceptions (Js.Error), computations on a state (Js.Stateful), arrays (Js.Arrays), texts and
--     numbers (Js.Text, Js.Print, Js.Number).
--   * Fields, Constants: the names of form fields and the codes, from ui/**/model/const.ts,
--     ui/**/model/constants.ts and ui/shared/config/constants.ts.
--   * Params: convertModalParametersToArray of transform, and the format that
--     ui/shared/model/validation.ts asks of such a text. Params.RoundTrip has the texts of settings.
--   * ExtraVars: getCommonExtraVars and getCloudProviderExtraVars (ExtraVars.Cloud),
--     getLocalMachineExtraVars (ExtraVars.Local), getExtensions (ExtraVars.Extensions) and
--     getBaseClusterExtraVars (ExtraVars.Backups, ExtraVars.Base) of transform.
--   * Inventory: configureHosts (Inventory.Hosts), constructDcsEnvs and constructBalancersEnvs
--     (Inventory.Groups), getLocalMachineEnvs (Inventory.Envs) of transform.
--   * Request: convertObjectValueToBase64Format (Request.Envs), getRequestCloudParams,
--     getRequestLocalMachineParams and mapFormValuesToRequestFields (Request.Fields) of transform,
--     and mapFormValuesToYamlEditor of ui/widgets/yaml-editor-form/lib/functions.ts.
--   * Secret: getSecretBodyFromValues and getAddSecretFormContentByType of
--     ui/entities/secret-form-block/lib/functions.ts, and the schema of
--     ui/features/add-secret/model/validation.ts.
--   * Validation, Schemas: ClusterFormSchema of ui/widgets/cluster-form/model/validation.ts with
--     the schemas of the blocks that it joins, and what they use of yup and ip-regex.
--   * Submit: the submit handlers of ui/widgets/cluster-form/ui/index.tsx (Submit.Form), of
--     ui/widgets/yaml-editor-form/lib/hooks.tsx (Submit.Editor) and of
--     ui/features/cluster-secret-modal/ui/index.tsx (Submit.Modal). Submit.Session is their state,
--     Submit.Actions holds the steps that they share, and Submit.Page chooses between the form's
--     own submission and the dialog.
--   * Summary: isHighAvailability of ui/widgets/cluster-summary/lib/hooks.tsx.
--   * Defaults: CLUSTER_FORM_DEFAULT_VALUES of ui/widgets/cluster-form/model/constants.ts.
--   * Blocks: the lists and selections of the blocks for databases and extensions in
--     ui/entities/cluster/expert-mode, the search of extensions (Blocks.Search), and getCorrectFields
--     of the block for the DCS (Blocks.Dcs).
--   * Theme: the slice of ui/app/redux/slices/themeSlice/themeSlice.ts with its storage.
--   * Settings: onSubmit of ui/widgets/settings-form/ui/index.tsx, with the local storage.
--   * Credentials: ui/entities/authentification-method-form-block/ui, the fields that it shows
--     (Credentials.Fields) and its choices and effects (Credentials.Steps).
--   * Choices: the handlers and effects of ui/entities/cluster for the provider, the region, the
--     instances, the storage and the backups, and the reset of ui/pages/add-cluster/ui/index.tsx.
--   * Slider: onChange of ui/shared/ui/slider-box/ui/index.tsx, with the limits of its users.
--   * Editor: the text and the parse of ui/widgets/yaml-editor-form/ui/index.tsx, and its schema;
--     Editor.Page joins it with the submissions, which change the parsed object.
--   * Export: handleButtonClick of
--     ui/features/clusters-table-row-actions/ui/ClusterTableExportButton.tsx: the public keys
--     (Export.Keys), the variables and their order (Export.Vars), the groups of hosts
--     (Export.Groups) and the inventory (Export.Button).
--   * Dialogs: ui/shared/ui/settings-add-entity with ui/features/add-project and add-environment,
--     and ui/features/add-secret (Dialogs.Add); the buttons of the rows of the tables in
--     ui/features/*-table-row-actions (Dialogs.Remove, Dialogs.Used).
--   * Tables: the rows and the queries of the tables in ui/widgets/*-table (Tables.Rows,
--     Tables.Queries), ui/features/operations-table-buttons/lib/functions.ts, and the polling of
--     ui/shared/lib/hooks.tsx for ui/pages/operation-log (Tables.Polling).
--   * Access: the token and the project: ui/pages/login, ui/features/logout-button,
--     ui/app/router/PrivateRouterWrapper.tsx, ui/shared/api/baseApi.ts, ui/widgets/header,
--     ui/app/redux/slices/projectSlice/projectSlice.ts, ui/app/redux/store/store.ts.
--   * Api: the requests and the cache tags of the endpoints in ui/shared/api/api.
-- Modules called Laws or by the name of what they prove hold proofs, those called Tests hold tests
-- and applications to concrete data, and Samples holds data for them.
--
-- How the code is modelled:
--   * A value of JavaScript is a value of the type Js. An object is its list of own properties in
--     the order of their creation; a spread joins two objects, and looking a property up finds the
--     one that was written last. A number is a natural number or NaN: the form's numbers are counts,
--     sizes, ports, hours and identifiers.
--   * An exception is the value thrown of Result. A function that cannot throw has no Result.
--   * IS_EXPERT_MODE, which the build sets, is the Boolean argument expert.
--   * A submit handler is a computation on a session: the reference to the created secret, the
--     object of the YAML editor, and what was sent, shown and left so far. An exception keeps the
--     changes made before it. The replies of the service are arguments. The mapping of the request
--     deletes two properties of the editor's object, which is the shared object in the session.
--   * Code that is not the repository's is an argument with its documented behaviour as named
--     hypotheses: btoa and atob, isEmpty and intersection of lodash, yup and ip-regex, the YAML
--     libraries, JSON.parse and localeCompare. A schema is a test of the values, without its
--     messages.
--   * What a user does in a block, and the answers that arrive meanwhile, are steps in any order:
--     a relation on the states says which can be reached.
--   * Every loop is recursion on a list or a text, so that no fuel and no bound is needed.
--
-- What is not modelled: rendering, routing, translations and prices, which have no logic of the
-- requests; the columns of the tables and their filters; negative and fractional numbers, and so
-- the marks of a slider; the types of the service's answers and the cache of RTK Query; the
-- service, the playbooks and the database.
pub mod Common
pub mod Js
pub mod Fields
pub mod Constants
pub mod Params
pub mod ExtraVars
pub mod Inventory
pub mod Request
pub mod Summary
pub mod Secret
pub mod Schemas
pub mod Validation
pub mod Api
pub mod Theme
pub mod Blocks
pub mod Defaults
pub mod Export
pub mod Choices
pub mod Access
pub mod Credentials
pub mod Slider
pub mod Editor
pub mod Tables
pub mod Dialogs
pub mod Settings
pub mod Submit
pub mod Samples
