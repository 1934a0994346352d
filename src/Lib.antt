-- ===== src/Lib.antt =====
-- AmxxMqttClient, a module of AMX Mod X that gives Pawn plugins an MQTT client.
--
-- The program. A plugin calls natives (src/natives.cpp) on handles. A client handle names an
-- AmxxMqttClient (src/AmxxMqttClient.cpp), which is a connection (src/MqttClient.cpp) with the ids of
-- four forwards of the plugin; src/MqttClientMgr.cpp owns the clients and gives out the handles.
-- src/ConnectOptionMgr.cpp owns the connect options, under handles of their own. Paho's threads tell
-- a connection what happens; its handlers put an event into the queue of src/CallbackDispatcher.cpp,
-- and the engine's server frame, into which src/RehldsFrameHook.cpp hooks, takes events out and
-- executes the plugin's forwards. src/module.cpp ties this to the life of a map. AMX Mod X reaches all
-- of it through the exports of src/sdk/amxxmodule.cpp, which src/sdk/moduleconfig.h configures, and is
-- called back through the pointers for which AMXX_Attach asks.
--
-- Files. Each component has a module of its name with the state and the operations; its children
-- hold the theorems.
--   MqttClient         src/MqttClient.h, src/MqttClient.cpp
--   AmxxMqttClient     src/AmxxMqttClient.h, src/AmxxMqttClient.cpp
--   MqttClientMgr      src/MqttClientMgr.h, src/MqttClientMgr.cpp
--   ConnectOptionMgr   src/ConnectOption.h, src/ConnectOption.cpp, src/ConnectOptionMgr.h,
--                      src/ConnectOptionMgr.cpp
--   CallbackDispatcher src/CallbackDispatcher.h and the queue of src/CallbackDispatcher.cpp
--   ServerFrame        ExecuteCallback and ProcessPendingCallbacks of src/CallbackDispatcher.cpp,
--                      OnServerFrame of src/RehldsFrameHook.cpp
--   RehldsFrameHook    src/RehldsFrameHook.h, src/RehldsFrameHook.cpp
--   Natives            src/natives.cpp: Clients, Topics, Callbacks and Options hold the natives, in
--                      the order of the file; Args what they share
--   Module             src/module.cpp
--   AmxxModule         what src/sdk/moduleconfig.h compiles of src/sdk/amxxmodule.cpp and
--                      src/sdk/amxxmodule.h: Functions, Requests, Macros and Signatures hold the
--                      functions of the core, Exports what the core calls, Config the description
--                      of the module, Errors and Logging MF_Log and MF_LogError, Life the order in
--                      which all this happens in a server. Memory, the memory tester, and
--                      Metamod are parts that the configuration leaves out
--   Service            what the module promises: live clients, the next handle, a queue
--   World              the globals of all these files together
--   System             the events that drive the module: natives, threads of Paho, map changes, frames;
--                      Interleaving has them in smaller steps
--   External           what is called but stands elsewhere: Paho, AMX Mod X, the engine
--   IntMap             std::unordered_map and std::set as the managers use them
--   Prelude            the library's names, tests and lists
--   Examples           concrete states, on which the theorems are applied
-- Names are those of the source in snake case: MqttClientMgr.make is MqttClientMgr::make,
-- RehldsFrameHook.register_rehlds_frame_hook is RegisterRehldsFrameHook.
--
-- State. Operations take the state and return the new one. A call on Paho, AMX Mod X or the engine
-- is put on the history, but for MF_GetAmxString and MF_GetAmxAddr, which only read the memory of a
-- plugin. What it answers is a function of the history (External, Engine), of which nothing is assumed
-- but where a theorem says so: Paho may throw anywhere. A cell and an int are 32-bit patterns, written
-- as numbers below 2 ^ 32; -1 is 4294967295. A string is its bytes.
--
-- Threads. A callback of Paho has two steps: it changes the connection and copies the handler, and
-- later it calls the handler. Between these, and between the rounds of the loop of a frame, other
-- steps come in, in any order: the events of System and the Surroundings of ServerFrame. Each critical
-- section is one step. The destructor of a connection is one step with all that Paho delivers before
-- MQTTAsync_destroy returns; that no callback runs after it returns is what Paho documents. Two models
-- take these steps apart. MqttClient.Callbacks has one connection, with each access of the flag and of
-- m_handlerMutex; it ends under the assumption that Paho starts a finite number of callbacks.
-- System.Interleaving has the whole module outside server frames, with the flag, the copy of a handler
-- and each part of a destructor as steps, and is compared with System.
--
-- Bounds. The loop of a frame recurses on the rounds left, at most 256. The loop of makeIndex recurses
-- on MAX_INDEX rounds, one for each index it tries. No other loop of the program is given fuel.
--
-- printf. MF_Log and MF_LogError format with vsnprintf of the C library; Logging has the conversions
-- %s, %d and %% that the module uses, and no result where C leaves the behaviour open. The digits of a
-- number recurse on the digits left, of which ten hold every number below 2 ^ 32.
--
-- Not modelled: of the AMX Mod X SDK in src/sdk GiveFnptrsToDll, the overrides of new and delete
-- outside the memory tester, and what only other systems compile; rehlds.h; the assertion on the thread id in src/MqttClientMgr.cpp, memory (allocation
-- failure, the lifetime of pointers that the code keeps), exceptions of the standard library, and
-- the plugins' side in scripting.
pub mod Prelude
pub mod IntMap
pub mod External
pub mod MqttClient
pub mod AmxxMqttClient
pub mod MqttClientMgr
pub mod ConnectOptionMgr
pub mod CallbackDispatcher
pub mod World
pub mod Natives
pub mod RehldsFrameHook
pub mod ServerFrame
pub mod Module
pub mod Service
pub mod System
pub mod AmxxModule
pub mod Examples
