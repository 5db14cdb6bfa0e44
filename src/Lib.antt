-- ===== src/Lib.antt =====
-- A verification library for sakumock, a suite of local mock servers for the SAKURA Cloud APIs, in Go.
--
-- The program is a server per cloud service, over a store that a mutex guards, and the shared package
-- core. The unified binary runs the services together with one core.IDGenerator for all of them.
-- This library models the stores and the handlers of the services simplemq, kms and secretmanager,
-- what they use of core, its injection of faults, the schedules and the store of eventbus, and the
-- expression language, the store, the executor and the runbooks of workflows:
--
--   Prelude       the shared names: tests on numbers and texts, lists, Go's int64, errors, sorting
--   Dict          Go's map, behind laws; its representation is private
--   Core          core/: IdGenerator is id.go (Next, Reserve, Observe), Decimal what it uses of
--                 strconv, Paging is paging.go (ParsePage, Paginate), Fault is fault.go
--                 (ParseFaultSpecs, Middleware)
--   SimpleMq      simplemq/: Queue is memoryQueue of store_memory.go (send, receive, compact,
--                 extendTimeout, delete, clear, count), Store the data plane of MemoryStore,
--                 Store/Control its control plane; Http is handler.go and handler_control.go
--   Kms           kms/: Crypto is what the store calls of crypto/* and encoding/*, Store is
--                 MemoryStore of store_memory.go with nextKeyMaterial of preset.go, Store/Cipher its
--                 Encrypt and Decrypt, Preset is parsePresetKeys of preset.go, Http is handler.go
--   EventBus      eventbus/: Crontab is Matches and Next of crontab.go, Crontab/Field its parser and
--                 the masks, Crontab/Calendar what it uses of the package time; Store is MemoryStore
--                 of store_memory.go
--   Workflows     workflows/expr/: Expr/Lexer is lexer.go, Expr/Grammar and Expr/Parser parser.go,
--                 Expr/Syntax the types of lexer.go, ast.go and value.go, Expr/Value the operations of
--                 value.go, Expr/Eval eval.go, Expr/Interpolation expr.go, Expr/Functions the functions
--                 of funcs.go on arrays, maps and texts. Store is MemoryStore of
--                 workflows/store_memory.go with the types of store.go, Executor the calls that the
--                 goroutines of executor.go make of it. Runbook is the types of workflows/runbook/step.go,
--                 Runbook/Validate validate.go, Runbook/Runner runner.go
--   SecretManager secretmanager/: Store is MemoryStore of store_memory.go, Http is
--                 handler.go and handler_vault.go
--
-- A function of the library has the name of the Go function in lower case with underscores. A method
-- that changes its store takes the store and returns the new one with the results; a mutex makes each
-- method one step, and sequences of calls are lists of requests. What a method reads of the world is
-- an argument: the time, and what crypto/rand or uuid draw. An error is a constructor of a data
-- type, without its text. A panic is `none` where a theorem is about it (Paginate, the write to a nil
-- map in rotateKeyMaterial).
--
-- Numbers are natural numbers, and the int64 of the generator and of the parameters of paging wrap
-- around as in Go. A time is the nanoseconds since Go's zero time, a duration is not negative, as
-- the request schemas ensure. The counts of versions of keys and secrets are natural numbers, since
-- they count single requests up from 1; the prefix of a ciphertext holds a key's version modulo
-- 2 ^ 32. A decimal text has at most 20 characters, which is the fuel of format_int. Go does not fix
-- the order in which a range visits a map; the model takes that of the entries.
--
-- The primitives of crypto/sha256, crypto/aes, crypto/cipher and encoding/base64 are the record
-- Crypto, and the record CryptoLaws has the two documented facts that the theorems on them use: Open
-- undoes Seal, and DecodeString undoes EncodeToString.
--
-- The lexer's state is the runes that are left, the parser's the tokens that are left. Their loops are
-- recursions on fuel: one more than the runes or the tokens that are left, since a turn reads at least
-- one, which the theorems on them show. The depth of the parser is counted down from maxParseDepth.
-- Next searches with one more turn than there are minutes up to its limit, as a turn goes on by a
-- minute at least; rangeMask has 256 turns, where 64 bits and an overflow take less than 140. A minute
-- of the wall clock is a record of its fields, for the year 1 on, in the fixed zone JST.
--
-- What the expressions need of float64, of strconv.ParseFloat and FormatFloat, and of json.Marshal, is
-- the record Floats and the argument to_json, and the theorems assume nothing of them. The faults have
-- a record Floats of their own, and IsOrdered is what their theorem assumes of it. What
-- unicode.IsLetter says past ASCII is the argument wide_letter. The functions of the environment are
-- arguments; they may change its testCounter and no more of it, as those of builtinFuncs. A
-- function that does not return, as text.findAll on an empty text, gives `none`, and ends the evaluation
-- in the model as the error endless. A printer for
-- the syntax tree, which the program does not have, states the round trip of the parser.
--
-- The loop of textFindAll has one more of the fuel than the text has bytes, which is enough where the text
-- that it looks for is not empty.
--
-- The loop of execSteps takes one of the fuel for each turn. Each turn looks at the context, so that the
-- fuel is enough where the context ends after as many looks; without an end a runbook may run for ever.
-- What the runner needs of an Env, of the call functions and of the context is the record Surroundings. An
-- evaluation or a call that does not return is `none` there, and the theorem that Run ends assumes, as
-- Returns, that each returns.
--
-- A handler takes the parts of the request that it reads, and returns the store with a response: a
-- status and the value that is written as JSON.
--
-- Not modelled: the encoding of JSON, the middleware but the authentication and
-- the injection of faults, logging, the SQLite store,
-- the command line, the timers, the HTTP clients and the handlers of eventbus, the built-in functions
-- that only call a package of Go, array.range,
-- the parser of runbooks and the handlers of workflows, and the other services.
pub mod Prelude
pub mod Dict
pub mod Core
pub mod EventBus
pub mod Kms
pub mod SecretManager
pub mod SimpleMq
pub mod Workflows
