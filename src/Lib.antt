-- ===== src/Lib.antt =====
-- Verification library of xpay-server, a gateway that sells answers of a language model for USDC
-- under the x402 protocol.
--
-- A request without a payment is relayed upstream; the answer is priced by its token usage, staged
-- in a cache and replaced by a challenge with status 402. A later request that carries a signed
-- payment for the staged id has it settled on the chain, is entered in the ledger and gets the
-- staged answer, once. An administrator changes the markup and the prices while the server runs.
--
-- Files, and the code that they model:
--   Types: internal/types/types.go, the structs of the wire format.
--   Pricing: internal/pricing/pricing.go. Price has the types, `parseUSDToMicros`, `compilePrice`
--     and `UnmarshalJSON`; Table `NewTable` and `priceFor`; Cost `CostMicroUSDC`; Display
--     `PricesFor` and `USDCUnitsToUSD`; Manager the shared table. Longest, Order, Bounds, Parse
--     prove.
--   Cache: internal/cache/cache.go; the clock is an argument. Laws and History prove; in History, a
--     list of events stands for the interleaving of handlers and sweeper.
--   Store: internal/store. Db has the tables of `migrate`, Payments the queries of payment.go,
--     Prices those of settings.go, Open and Migrate those of db.go. Records, Apart, Inserts,
--     Catalog and Migrated prove.
--   Config: internal/config/config.go. Env reads one variable, Load is `Load`; Valid proves.
--   Settler: internal/settler. Authorization, Signature and Evm are settler.go; Solana and
--     SolanaSettle are solana.go; New is `New` and `NewSolana`, CallTypes the call of the contract.
--     EvmLaws, NewLaws, PayTo, Quote, SolanaScan, SolanaPayment and SolanaLaws prove.
--   Handler: internal/handler. Server has the state that the handlers share; Initial, Payment and
--     Relay are `handleInitial`, `handlePayment` and `Handle` of relay.go, Admin is admin.go, Info
--     is info.go. Settling puts the settlers of both chains behind the relay's interface. Staging,
--     Booked, Delivery, Overlap, Sold, History, RoundTrip and AdminLaws prove; in History a handler
--     is one step. Interleaving cuts `handlePayment` into its pieces, which any other step may
--     separate; Keeping, Concurrent, Entered and Atomic prove of it. Balances joins the relay and
--     the balance of info.go; Unconfirmed the relay and a Solana transaction that is not confirmed
--     in time.
--   Main: cmd/server/main.go, from the settings to the shared state, and `corsMiddleware`; Routes
--     has the routes, what stands in front of them, and the end of the server. Laws and Guard
--     prove.
--   Client: cmd/testpay/main.go. Abi, Network and Sign are its helpers, Pay is `main`, both
--     exchanges. Eip712 states the standard that the server takes from go-ethereum; AbiLaws,
--     Encodes, Digest, Signature, Trade, Accepted, Served and Conversation prove that client and
--     server fit together.
--   Base: Booleans, equality, lists, texts, integers, dictionaries, sorting, decimals and results.
--   Tests: the theorems at concrete inputs, and runs.
--
-- State and effects. A handler is a function from the server's state (settings, cache, tables,
-- prices) to a response and the state that it leaves. A statement of the database takes a flag that
-- says whether the driver fails there; what a settlement sent to the chain stands beside its
-- result.
--
-- Numbers. `*big.Int` is an integer. A machine integer is one too, with the wrap-around written out
-- (`to_int64`) where the code converts or subtracts. A `float64` is NaN, an infinity or an exact
-- fraction, since the code only compares it and turns it into a `big.Rat`. A text is the list of
-- its bytes, and lower case and white space are those of ASCII.
--
-- Loops. All are structural, but for the digits and the bytes of a number, which run on fuel: n + 1
-- steps are enough for n. `waitConfirmed` runs over the list of the node's answers within the time
-- of the request, and so ends.
--
-- Parameters. go-ethereum, solana-go, the JSON, base64 and number parsers, SHA-256, `url.Parse`,
-- gin's matching of paths, the upstream and the nodes are arguments. The hypotheses on them are
-- that the identifiers of the Solana programs differ; that the parsers which `Load` and `New` call
-- agree; and, where the client meets the server, that hashes and addresses have their sizes,
-- hexadecimal text and JSON are read back, `HashStruct` follows EIP-712 and a signature recovers
-- its signer.
--
-- Not modelled: logging, the listener and the channels of `main`; the SQL driver; the HTTP calls
-- and the printing of cmd/testpay. A Unicode letter is not folded.
pub mod Base
pub mod Pricing
pub mod Cache
pub mod Store
pub mod Types
pub mod Config
pub mod Settler
pub mod Handler
pub mod Main
pub mod Client
mod Tests
