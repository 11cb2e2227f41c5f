-- ===== src/Tests.antt =====
-- Small machines that stand in for the engines, and the theorems at concrete inputs.
mod Data
mod LuaMachine
mod LuaRuns
mod GameMonkeyMachine
mod GameMonkeyRuns
mod SquirrelMachine
mod SquirrelRuns
mod OcamlRuns
mod RuntimeRuns
mod ObjectRuns
mod BytecodeRuns
mod ChannelRuns
mod InputRuns
mod InterpRuns
