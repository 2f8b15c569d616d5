-- ===== src/Store/Data.antt =====
-- The records of store.go, the file that they are kept in, `load` and `save`. A time that is
-- formatted is a text, and an `omitempty` text that is absent is empty.
use gateway_lite.Common.{
  arith, Bytes, List, Map, Option, [], bytes_eq, map, nat_eq, none, some, ℕ, ◌≡◌,
}
use gateway_lite.Common.Int.{ℤ}

pub record StoreUser : Type 0 where
  pub user : Bytes
  pub password : Bytes
  pub token : ℕ
  pub email : Bytes
  pub phone : Bytes
  pub addtime : Bytes

pub record StoreDevice : Type 0 where
  pub name : Bytes
  pub user : Bytes
  pub os : Bytes
  pub mac : Bytes
  pub lan_ip : Bytes
  pub ipv4 : Bytes
  pub ipv6 : Bytes
  pub nat_type : ℤ
  pub bandwidth : ℤ
  pub version : Bytes
  pub remark : Bytes
  pub addtime : Bytes
  pub activetime : Bytes

pub record StoreNetworkNode : Type 0 where
  pub name : Bytes
  pub ip : Bytes
  pub resource : Bytes
  pub enable : ℤ

pub record StoreNetwork : Type 0 where
  pub id : ℕ
  pub user : Bytes
  pub name : Bytes
  pub gateway : Bytes
  pub mode : Bytes
  pub central_node : Bytes
  pub force_relay : ℤ
  pub punch_priority : ℤ
  pub enable : ℤ
  pub tunnel_num : ℤ
  pub mtu : ℤ
  pub members : List StoreNetworkNode

pub record StoreData : Type 0 where
  pub users : Map Bytes StoreUser
  pub devices : Map Bytes StoreDevice
  pub networks : Map ℕ StoreNetwork

-- What json.Unmarshal makes of the file: a map that the file lacks is nil.
pub record FileData : Type 0 where
  pub users : Option (Map Bytes StoreUser)
  pub devices : Option (Map Bytes StoreDevice)
  pub networks : Option (Map ℕ StoreNetwork)

-- encoding/json on the stored data, where nothing that can fail stands in it.
pub record StoreJson : Type 0 where
  pub marshal : StoreData → Bytes
  pub unmarshal : Bytes → Option FileData

-- The file: none where it is absent or cannot be read, or its content.
abbrev pub File : Type 0
File = Option Bytes

pub record Store : Type 0 where
  pub stored : StoreData
  pub file : File

abbrev pub empty_data : StoreData
empty_data = record { users = []; devices = []; networks = [] }

abbrev or_else : {A : Type 0} → Option A → A → A
or_else none a = a
or_else (some b) a = b

-- What a file that is not JSON of this form leaves as it was.
unfoldable pub load : StoreJson → Store → Store
load json s = elim s.file [
  | none ↦ s
  | some bytes ↦ elim (json.unmarshal bytes) [
    | none ↦ s
    | some d ↦ record s {
      stored = record {
        users = or_else d.users s.stored.users;
        devices = or_else d.devices s.stored.devices;
        networks = or_else d.networks s.stored.networks;
      };
    }
  ]
]

unfoldable pub new_store : StoreJson → File → Store
unfolding load
new_store json file = load json (record { stored = empty_data; file = file })

-- What the disk makes of the data in one `save`: the file's new content, or none where the temporary
-- file cannot be written or renamed.
abbrev pub Disk : Type 0
Disk = StoreData → Option Bytes

unfoldable pub save : Disk → Store → Store
save disk s = elim (disk s.stored) [ none ↦ s | some bytes ↦ record s { file = some bytes } ]

-- The values of a map, in the order of its entries.
abbrev pub values : {K V : Type 0} → Map K V → List V
values m = map (λ p. p.1) m

-- Writing the file does not change what is in memory.
pub stored-save : (disk : Disk) (s : Store) → (save disk s).stored ≡ s.stored
unfolding save
stored-save disk s = ground arith
