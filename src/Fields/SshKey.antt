-- ===== src/Fields/SshKey.antt =====
-- `SSH_KEY_BLOCK_FIELD_NAMES`,
-- console/ui/src/entities/cluster/ssh-key-block/model/const.ts.
use postgresql_cluster.Common.{String}

abbrev pub ssh_public_key : String
ssh_public_key = "sshPublicKey"
