-- ===== src/Lib.antt =====
-- A model of WebAssembly in TrustZone: the WebAssembly micro runtime with the Aerogel access control,
-- which stands between the modules and the peripherals of a device.
--
-- The program. A module comes in over the host link (core/app-mgr/app-manager/app_manager_host.c) or
-- from a file, the loader (core/iwasm/interpreter/wasm_loader.c) decodes and validates it, and the
-- runtime (core/iwasm/interpreter/wasm_runtime.c) instantiates and runs it. A running module reaches
-- sensors and actuators only through `aerogel_sensor_module`, which asks the checks of names, of
-- concurrent accesses, of energy and of the processor. Requests and responses between the host, the
-- app manager and the applications travel as packets
-- (core/app-framework/app-native-shared/restful_utils.c).
--
-- The files.
--   Base            numbers, Boolean tests, lists and bit operations that all modules share.
--   Loader/Outcome  the result of a loader function: values, or the message of an error.
--   Loader/Leb      `skip_leb`, `read_leb` and the macros `read_leb_uint32`, `read_leb_int32` and
--                   `read_leb_int64`. Spec is the integers of the WebAssembly specification; Span
--                   and Groups cut a buffer into groups of seven bits, which both sides share.
--   Loader/Utf8     `check_utf8_str`.
--   Loader/Stack    `WASMLoaderContext` with `check_stack_push` to `wasm_loader_check_br`. Spec is a
--                   stack of value types.
--   Loader/Locals   the cells and offsets of the parameters and locals of a function.
--   Loader/Body     the cases of `wasm_loader_prepare_bytecode` for instructions without branches,
--                   calls, globals and memory. Signature is the types of the numeric instructions in
--                   the WebAssembly specification, Typing those of all of them, Checked and Leaf prove
--                   that what is accepted has them, Accepts and Exact that what has them is
--                   accepted.
--   Opcode          the opcodes that the loader and the interpreter share
--                   (core/iwasm/interpreter/wasm_opcode.h).
--   Aerogel         the data of the access control; CString the functions of the C library that it
--                   uses; Energy, Concurrency and Name the checks `check_access_energy`,
--                   `check_access_concurrency` and `check_access_name`; Gate `aerogel_sensor_module`
--                   with its two loops. Gate/Kept lifts a property from the small operations of the
--                   gate to the whole of it.
--   Rest            Packet is `pack_request` to `unpack_response`, Url `check_url_start` and `match_url`,
--                   KeyValue `find_key_value`, with Entries the buffers of pairs and Passes one round
--                   of its loop.
--   Host            the state machine `on_imrt_link_byte_arrive`, `aee_host_msg_callback` and
--                   `app_manager_host_send_msg`.
--   Utils/Vector    core/shared/utils/bh_vector.c; Shifts the two loops that move elements, Contents
--                   the operations on the elements.
--   Memory          `WASMMemoryInstance`. Poison holds the checks of the peripherals' addresses and
--                   `aerogel_wasm_safe_allocation`, Instantiate `memory_instantiate`, Enlarge
--                   `wasm_enlarge_memory`, Address the validation and conversion of addresses, Usage
--                   `check_memory_usage` and `wasm_add_index_from_name`.
--   Utils/Timer     core/shared/utils/runtime_timer.c: Order is the order of the active timers, Kept
--                   what each operation keeps, Steps any sequence of operations, Firing the check
--                   for expired timers.
--   Utils/Queue     core/shared/utils/bh_queue.c: Order is the order of the messages.
--   Utils/HashMap   core/shared/utils/bh_hashmap.c: Chains is one chain, Old the old values that are
--                   given back, Refinement the whole map as a finite map, Create a new map.
--   Interp/Access   `CHECK_MEMORY_OVERFLOW` of core/iwasm/interpreter/wasm_interp_classic.c.
--   Interp/Transfer the loads and stores of the interpreter, with the bytes they move.
--   Interp/Leb      `read_leb` of the interpreter, with its macros.
--   Interp          Frame is the frame of a function with `PUSH_I32` to `POP_F64`, Integers the
--                   arithmetic of 32 and 64 bits with its counting loops, Exec the handlers of
--                   core/iwasm/interpreter/wasm_interp_classic.c, with Exec/Arithmetic the numeric
--                   ones. Sound takes each handler from the types of an instruction to the shape of
--                   the frame; Sound/Code joins the loader and the interpreter.
-- Each module with tests has them, with the examples of the theorems, in a child Tests.
--
-- Conventions. A number of w bits is a natural number with its wrap-around written out. A buffer is
-- the list of its bytes, a string the list of the bytes before its NUL, a pointer into an array its
-- index. A mutable structure is a record, and each operation gives the new one. What the language
-- does not define, such as a read behind an array, is a result of its own. The allocator, the clocks,
-- the sender and the module loader of the host link are arguments.
--
-- Bounds. The only fuel is that of `leading_ones`, eight shifts of a byte, and of `utf8_loop`, the
-- length of the string, of which every round takes a byte at least, and of `find_key_value`, the size
-- of its buffer, of which every round but the last takes a byte, and of the loops that count the bits of
-- a word, one round for each of its bits. All other loops run along a list
-- or a count of the source.
--
-- What is not modelled. The access control is the code under `#if !EVAL_NO_AEROGEL`;
-- core/iwasm/interpreter/access_control_spec.h switches it off as it stands. The parsers of its two
-- sheets, also those of the addresses in `aerogel_wasm_safe_allocation`, the sections of the loader,
-- the branches, calls, globals and memory accesses in its check of a function body, the branches, calls
-- and globals of the interpreter, the fast interpreter, the tables and globals of an instance and
-- the other shared utilities are not part of it yet. The ahead-of-time compiler, the platform
-- layers, the wrappers of the C library and the samples are left out: they call other systems.
pub mod Base
pub mod Loader
pub mod Aerogel
pub mod Rest
pub mod Host
pub mod Opcode
pub mod Utils
pub mod Memory
pub mod Interp
