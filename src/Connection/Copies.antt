-- ===== src/Connection/Copies.antt =====
-- src/Connection.cpp: the copy constructor and the assignment, from another object, and what a copy is.
use left_hook_roll.DataStore.Duplicates.{copy-Duplicates, Duplicates}
use left_hook_roll.DataStore.Kernel.{Reply, DataStore}
use left_hook_roll.Request.Copies.{
  assign_request-made, copy_request-made, copy_request, assign_request,
}
use left_hook_roll.DataStore.Contents.{contents, IsStored}
use left_hook_roll.Prelude.{refl, [], ◌≡◌, List}
use left_hook_roll.Prelude.Result.{Result, ◌>>◌, Made, made, unmade, ok, threw, M}
use left_hook_roll.DataStore.Copies.{copy}
use left_hook_roll.Connection.{DataStore, Connection, on_request, on_response}
use left_hook_roll.Response.Copies.{
  copy_response, assign_response, response_with, copy_response-made, assign_response-made,
}

-- The kernel's replies to a new connection: to its request's stores, its response's store, and to later
-- writes of files.
pub record CopyReplies : Type 0 where
  pub body : List Reply
  pub decoded : List Reply
  pub store : List Reply
  pub writes : List Reply

-- Connection(const Connection& other): it has the descriptor of `other`, and so its socket.
unfoldable pub copy_connection : Connection → CopyReplies → Made Connection
unfolding copy_request copy_response
copy_connection other k = elim (copy_request other.exchange.request k.body k.decoded) [
  | unmade e ↦ unmade e
  | made q ↦
      elim (copy_response other.exchange.response k.store other.exchange.response.socket k.writes) [
        | unmade e ↦ unmade e
        | made r ↦ made (record other { exchange = record { request = q; response = r } })
      ]
]

-- The members, the descriptor among them.
abbrev own_members : Connection → M Connection (Unit {0})
own_members other c = ok tt (record c {
  last_activity = other.last_activity;
  server_conf = other.server_conf;
  read_buffer = other.read_buffer;
  state = other.state;
  total_bytes_read = other.total_bytes_read;
  exchange = record c.exchange {
    response = record c.exchange.response { socket = other.exchange.response.socket };
  };
})

-- operator=(const Connection& other)
unfoldable pub assign_connection : Connection → M Connection (Unit {0})
unfolding assign_request assign_response
assign_connection other = do
  own_members other
  on_request (assign_request other.exchange.request)
  on_response (assign_response other.exchange.response)

-- A store that stands for the bytes that `other` stands for, to be read from its start.
pub record IsTwin (other t : DataStore) : Type 0 where
  pub same_contents : contents t ≡ contents other
  pub twin_stored : IsStored t
  pub from_start : t.read_offset ≡ 0

-- The members of `other`, with stores of the same contents, but with no file open and no script.
pub record IsCopy (other t : Connection) : Type 0 where
  pub body_copied : IsTwin other.exchange.request.body t.exchange.request.body
  pub decoded_copied : IsTwin other.exchange.request.decoded_body t.exchange.request.decoded_body
  pub store_copied :
      IsTwin other.exchange.response.response_data_store t.exchange.response.response_data_store
  pub request_copied : t.exchange.request ≡ record other.exchange.request {
    body = t.exchange.request.body;
    decoded_body = t.exchange.request.decoded_body;
  }
  pub response_copied :
      t.exchange.response
      ≡ response_with other.exchange.response t.exchange.response.response_data_store
          other.exchange.response.socket t.exchange.response.write_replies
  pub others_copied : t ≡ record other { exchange = t.exchange }

-- A copy that the kernel serves is made.
copy-IsTwin :
    (other : DataStore)
    → IsStored other
    → (t : DataStore) × (copy other [] ≡ ok tt t) × IsTwin other t
copy-IsTwin other v = go (copy other []) refl (copy-Duplicates other v)
  where
    go :
        (x : Result DataStore (Unit {0}))
        → copy other [] ≡ x
        → Duplicates other x
        → (t : DataStore) × (copy other [] ≡ ok tt t) × IsTwin other t
    go (ok a t) e d = (t, e, record { same_contents = d.0; twin_stored = d.1; from_start = d.3 })
    go (threw y t) e d = absurd d

-- Every store of the connection is well formed.
pub record AllStored (c : Connection) : Type 0 where
  pub body_stored : IsStored c.exchange.request.body
  pub decoded_stored : IsStored c.exchange.request.decoded_body
  pub store_stored : IsStored c.exchange.response.response_data_store

-- The kernel serves the calls of the connection's stores.
pub record AllServed (c : Connection) : Type 0 where
  pub body_served : c.exchange.request.body.replies ≡ []
  pub decoded_served : c.exchange.request.decoded_body.replies ≡ []
  pub store_served : c.exchange.response.response_data_store.replies ≡ []

-- With the kernel serving, and the stores of `other` well formed, the copy constructor makes an object,
-- and the assignment to another connection leaves that same object: a copy of `other` with its members,
-- its socket among them, and with stores for the same bytes, to be read from their start, but with no
-- file open for sending or for an upload, and without the script.
pub assign_connection-copy_connection :
    (other c : Connection)
    → AllStored other
    → AllServed c
    → (t : Connection) × (copy_connection other (record {
      body = [];
      decoded = [];
      store = [];
      writes = c.exchange.response.write_replies;
    })
        ≡ made t)
      × (assign_connection other c ≡ ok tt t)
      × IsCopy other t
unfolding assign_connection copy_connection
assign_connection-copy_connection other c v w =
    let x = copy-IsTwin other.exchange.request.body v.body_stored in
    let y = copy-IsTwin other.exchange.request.decoded_body v.decoded_stored in
    let z = copy-IsTwin other.exchange.response.response_data_store v.store_stored in
    (
      record other {
        exchange = record {
          request = record other.exchange.request { body = x.0; decoded_body = y.0 };
          response =
              response_with other.exchange.response z.0 other.exchange.response.socket
                c.exchange.response.write_replies;
        };
      },
      rw
          (
            copy_connection,
            copy_request-made other.exchange.request x.0 y.0 x.1 y.1,
            copy_response-made other.exchange.response z.0 z.1 other.exchange.response.socket
                c.exchange.response.write_replies,
          )
          refl,
      rw
          (
            ◌>>◌,
            on_request,
            on_response,
            assign_request-made other.exchange.request x.0 y.0 x.1 y.1 c.exchange.request
                w.body_served w.decoded_served,
            assign_response-made other.exchange.response z.0 z.1
                (record c.exchange.response { socket = other.exchange.response.socket })
                w.store_served,
          )
          refl,
      record {
        body_copied = x.2;
        decoded_copied = y.2;
        store_copied = z.2;
        request_copied = refl;
        response_copied = refl;
        others_copied = refl;
      },
    )
