-- ===== src/Resource/ClusterState.antt =====
-- The constants of type `ClusterState`, a text, in presto_types.go.
use steerd_presto_operator.Base.{String}

abbrev pub failed : String
failed = "Failed"

abbrev pub ready : String
ready = "Ready"

abbrev pub pending : String
pending = "Pending"

abbrev pub unknown : String
unknown = "Unknown"
