-- ===== src/Constants/Providers.antt =====
-- `PROVIDERS`,
-- console/ui/src/shared/config/constants.ts.
use postgresql_cluster.Common.{String}

abbrev pub aws : String
aws = "aws"

abbrev pub gcp : String
gcp = "gcp"

abbrev pub azure : String
azure = "azure"

abbrev pub digital_ocean : String
digital_ocean = "digitalocean"

abbrev pub hetzner : String
hetzner = "hetzner"

abbrev pub local : String
local = "local"
