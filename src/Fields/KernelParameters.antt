-- ===== src/Fields/KernelParameters.antt =====
-- `KERNEL_PARAMETERS_FIELD_NAMES`,
-- console/ui/src/entities/cluster/expert-mode/kernel-parameters-block/model/const.ts.
use postgresql_cluster.Common.{String}

abbrev pub kernel_parameters : String
kernel_parameters = "kernelParameters"
