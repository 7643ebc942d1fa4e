-- ===== src/Slot/Spread.antt =====
-- What `bSlot::del` does where it empties the third table and the first one turns a key out:
-- `!(slot[0]->insert(x)) && !(slot[bi]->insert(x))`, CuckooGraph/main.cpp.
use cuckoo_graph.Cuckoo
use cuckoo_graph.Cuckoo.{Cuckoo}
use cuckoo_graph.Floats.{Floats}
