-- ===== src/Lib.antt =====
-- multi-script gives a C++ program one interface to four script languages: Lua, Game Monkey,
-- Squirrel and Ocaml. A program creates a `ScriptContext`, registers functions and classes with it,
-- executes scripts, and calls script functions through a `ScriptStack`, onto which it pushes the
-- arguments and from which it pops the results. A registered function gets such a stack as well, to
-- pop its arguments and push its results. Each language has a pair of classes that implement the
-- interface on top of the engine of that language; for Ocaml, the runtime itself was extended.
--
-- The files:
-- - Prelude, Outcome: names, tests and lists on the native numbers, byte strings; what a piece of
--   C++ comes to, as a value: a result, an assertion (which spins for ever), undefined behaviour,
--   an exit, or out of memory.
-- - Interface: multiscript/ScriptInterface.h and .cpp. `Program` is user code over a stack, as a
--   tree of its calls on the virtual methods in `StackMethods`; `run` runs it over the methods of a
--   binding. Frame is what the interface promises of functions that deal in integers, with no
--   language behind it, and Refinement lifts a proof on each method of a binding to every user
--   function. Shared has the helpers of the bindings, and Uncounted user code that does not call
--   `GetNumParams`. Objects is the store of `ScriptObject`s with the user's destructors, Lifecycle what
--   the callbacks of the bindings do to an object, Pointers the owner `ScriptObjectPtr`, Desc the
--   descriptions of functions and classes, Utilities `ScriptContext::Create` and text buffers.
-- - Lua: multiscript/LuaScriptContext.cpp and LuaScriptStack.cpp. Api is the part of the Lua C
--   interface that they use; Context has the members of `LuaScriptContext`, Context.Classes
--   `RegisterUserClass`, Stack the members of `LuaScriptStack` and `LuaFunctionCallback`, Callbacks
--   the other callbacks. Stack.Calls, Stack.Protocol, Stack.Functions and Callbacks.Ends hold the
--   proofs.
-- - Squirrel: multiscript/SquirrelScriptContext.cpp and SquirrelScriptStack.cpp, laid out alike. Api
--   is the part of the Squirrel C interface that they use, with the running frame, the slots of the
--   root table and of classes, and the instances. Proofs are in Stack.Frames (functions called from
--   scripts), Stack.Calls and Stack.Protocol (calls from C++), Stack.Instances
--   (`PushNewScriptObject`), Registration and Registration.Members (functions and classes),
--   Callbacks.Invocation, Callbacks.Serves and Callbacks.Ends.
-- - GameMonkey: multiscript/GMScriptContext.cpp and GMScriptStack.cpp, laid out alike; Api is the
--   part of gmMachine, gmThread and gmCall that they use. Errors is about the log of `ExecuteString`.
-- - Ocaml: multiscript/OcamlScriptStack.cpp in Stack, the words of ocaml/byterun/mlvalues.h in
--   Words, the closure calls of the runtime as the parameter Engine, and
--   multiscript/OcamlScriptContext.cpp in Context, with the execution of text in Context.Execute and
--   the print callback in Print. Context.Registered and Context.Served hold the proofs that go from
--   `RegisterFunction` through the runtime's table of primitives to the callback.
-- - Runtime: the C code of ocaml/byterun that registers functions at run time: the growing tables
--   of misc.c in ExtTable, memory.c in Memory, the handler of fatal errors of misc.c in Fatal, and
--   in Dynlink the lookup and the tables of dynlink.c, with the registration of custom_startup.c
--   and the accessor of interp.c; Dynlink.Registry is about a start and the registrations after it,
--   and Dynlink.Strings, Dynlink.Lookup and Dynlink.Build hold the other proofs. Bytecode is the
--   reading of byte-code files in custom_startup.c: Bytecode.File has the calls of the C library,
--   Bytecode.Layout the format as exec.h draws it, Bytecode.Load `custom_caml_load_code` with
--   `caml_load_code` of fix_code.c; Bytecode.Toc, Bytecode.Sections and Bytecode.Load.Loaded hold
--   the proofs. Channel is the output side of ocaml_io.c, with the hook for the standard output,
--   and Channel.Input the input side; their proofs are in Channel.Delivery, Channel.Puts
--   and Channel.Buffered, and in Channel.Input.Receipt, Channel.Input.Gets, Channel.Input.Words and
--   Channel.Input.Seek.
--   Interp is the byte-code interpreter of interp.c: its registers with the instructions on the stack
--   and for the application of functions, their dispatch in Interp.Steps, exceptions in
--   Interp.Traps, integers and branches in Interp.Integers, and calls of C functions, with
--   `caml_callbackN_exn` of callback.c, in Interp.CCalls. Interp.Application, Interp.Currying,
--   Interp.Handlers, Interp.Arith, Interp.Division and Interp.Reentry hold their proofs.
--   Interp.Methods is the lookup of a method by its tag, and Interp.MethodSearch its proof.
-- - Samples: `MyAdd` of multiscript_test/MultiScriptTest.cpp, over both bindings.
-- - Tests: concrete machines, and the theorems applied to them.
--
-- A method of a C++ class becomes a function of the same name, in lower case, from the state before
-- to an `Outcome` of its result and the state after; a C function keeps its name. A `bool` with an
-- output parameter is an `Option`; a C `int` is its pattern of 32 bits; a pointer is a number, and
-- one that may be null an `Option`; the infos that a Lua closure points to are positions in the
-- lists of the context. The machine has words of 32 bits, as the project files of the repository
-- set it up. Loops are recursion on the list that they walk, and the loop over the registered
-- functions on the number of rounds, which is the size of the table. The loops of `caml_flush` and
-- `caml_really_putblock` have fuel: one more than the bytes that are buffered or given, since each
-- round passes on a byte, but for a first round that makes room; that of `caml_really_getblock` the
-- bytes that are asked for. The theorems say that it is enough. The rounds of the interpreter are
-- counted, by the theorems that speak of them.
--
-- What is assumed: the effects that the Lua 5.1 manual states, as the laws of the record `LuaApi`;
-- those of the Squirrel 2 interface and of the Game Monkey machine, in `SquirrelApi` and `GmApi`;
-- that the fixed-arity callbacks of the Ocaml runtime are those on arrays, in `OcamlEngine`; and
-- which sizes `malloc` grants, for how many bytes its blocks have room, the contents of the files, the
-- answers of the system to reads and writes, and the reading of a marshalled value, as parameters.
-- `custom_caml_register_c_function` asks for the size of a pointer and writes three, so the theorems on
-- registered functions assume that such a block has room for three. Tests gives the four records
-- concrete instances.
--
-- What is not modelled: the engines, which are copies of other projects; the creation of the
-- contexts and `CollectGarbage`, which only call the engines; a collection that an engine starts by
-- itself inside a call of its interface; of the Ocaml runtime the instructions of the interpreter
-- on bits, shifts, blocks, globals, recursive closures and, but for that lookup, on objects, its
-- checks for stack room and signals, and the garbage collector, so that no block moves; of its
-- channels, seeking for output, the search for the end of a line, the list of open channels and
-- their mutexes; the sizes of the engines' stacks; the aliasing of one `FunctionDesc` by several
-- contexts.
pub mod Prelude
pub mod Outcome
pub mod Runtime
pub mod Interface
pub mod Ocaml
pub mod Lua
pub mod Squirrel
pub mod GameMonkey
mod Tests
pub mod Samples
