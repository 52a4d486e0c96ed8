-- ===== src/Keys.antt =====
-- Root names of the store: the key prefixes that daemon/metadata_view.cpp, namespace.cpp, compaction.cpp
-- and container.cpp share.
use forkfs.Common.{◌∷◌, ◌++◌}
use forkfs.Common.Bytes.{Bytes, codes}

-- std::string("\0forkfs/",8)
abbrev pub prefix : Bytes
prefix = 0 ∷ codes "forkfs/"

-- std::string("\0forkfs-history/",16)
abbrev pub history : Bytes
history = 0 ∷ codes "forkfs-history/"

abbrev pub root_key : Bytes
root_key = prefix ++ codes "root"

-- history+"orphan/"+world+"/"+id+"/"
abbrev pub orphan_prefix : Bytes → Bytes → Bytes
orphan_prefix world id = history ++ (codes "orphan/" ++ (world ++ (codes "/" ++ (id ++ codes "/"))))
