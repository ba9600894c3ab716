-- ===== src/Database/KeyValue.antt =====
-- `mermai_key_value_store`: the map in memory, in the same files.
use mermai_blockchain.Base.{Bool, true, []}
use mermai_blockchain.Base.Key.{Bytes, bytes_key}
use mermai_blockchain.Base.Map.{Map, find_or, insert, contains, erase}

abbrev pub KeyValueStore : Type 0
KeyValueStore = Map Bytes Bytes

unfoldable pub set : Bytes → Bytes → KeyValueStore → KeyValueStore × Bool
unfolding insert
set key value store = (insert key value store, true)

unfoldable pub get : Bytes → KeyValueStore → Bytes
unfolding find_or
get key store = find_or [] key store

unfoldable pub exists : Bytes → KeyValueStore → Bool
unfolding contains
exists key store = contains key store

-- `store.erase(key) > 0`
unfoldable pub delete_key : Bytes → KeyValueStore → KeyValueStore × Bool
unfolding erase contains
delete_key key store = (erase key store, contains key store)

unfoldable pub clear : KeyValueStore → KeyValueStore
clear store = []
