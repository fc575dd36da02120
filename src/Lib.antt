-- ===== src/Lib.antt =====
-- Verification library of the device-independent modules of pic8-hal: each is plain C over the
-- interrupt, timer, USART and EEPROM drivers of the device families, and is modelled as functions on
-- the state that it keeps.
--
-- Common, with its child modules, has the numbers, lists and tests that all share: casts to 8, 16 and
-- 32 bits (Common/Bits, with the bit operations of C at constant
-- masks), binary digits (Common/Digits), bounds of a quotient (Common/Quotient), two's complement (Common/Int),
-- lists over the native numbers (Common/Lists) and Boolean tests (Common/Tests).
--
-- Tick: epic-tick/src/epic_tick.c. `compute_period` chooses the configuration of Timer2, and
-- Tick/Closest compares it with the others; `elapsed` is the wrap-safe difference of two tick counts.
-- epic-debounce and epic-encoder take the present tick as an argument of each call. Tick/Timebase has
-- the rest of the module on the registers of Pic16, with the harness of the host build, which steps the
-- simulator. Tick/Overflow follows an interrupt, Steps a step of the simulator, and Count the digits of
-- the clock; Delay has the loop, Start the set-up, and Uptime and Stuck put them together.
--
-- Pic16 and its children are pic16f87xa-hal, over the register array of the host build. Irq is
-- src/core/pic16_irq.c, with IrqTable and IrqLines about its table; Dispatch is
-- src/core/pic16_irq_dispatch.c; Timer1, Timer2, Ccp, Gpio and Eeprom are the drivers of these names in
-- src/peripherals; Sim and SimPins are src/sim/pic16f87xa_sim.c, whose interrupt callback is an argument.
-- Location is about single bits, Moving about a counter read while it runs, Duty about the duty of a
-- pulse, Pins about the pins of the driver and the simulator, and Clobber about the EEPROM driver on the array.
--
-- Debounce: epic-debounce/src/debounce.c. `Debounce` is debounce_t, `poll` is debounce_poll with the
-- tick and the level of the pin as arguments. Debounce/Held reads the events off the history of
-- samples.
--
-- Fsm: epic-fsm/src/fsm.c. `dispatch` is fsm_dispatch over any type of contexts: a guard reads the
-- context, an action replaces it. Fsm/First is about the row that fires.
--
-- Encoder: epic-encoder/src/encoder.c. `update` is encoder_update. Encoder/Track compares the count
-- with the movement of a shaft; the count wraps at 32 bits.
--
-- Pid: epic-pid/src/pid.c. `update` is pid_update, by its manual and automatic branches, with the casts
-- to 16 bits and the 32-bit sums wrapped. Pid/Bounds has the limits, Pid/Bumpless the change of mode.
--
-- Taskmgr: epic-taskmgr/src/task_manager.c. `Manager` is the table with the tick count; `tick` is
-- task_manager_tick, `run_once` is task_manager_run_once, whose first loop is `snapshot` over `pick`
-- and whose second is `run_tasks`. Taskmgr/Scan, Order, Round and Slots follow the loops, Period the
-- countdown, and Reach the states that the operations reach.
--
-- Ring: the byte rings of epic-serial/src/epic_serial.c, as sequences in Ring/Queue.
--
-- Serial: epic-serial/src/epic_serial.c, two rings between the program and the USART. What a wait
-- loop's epic_dispatch_all_irqs does is a parameter; Serial/Stream states what it must keep, and that
-- the module's own interrupt does so. Serial/Receive is about the other direction.
--
-- Settings: epic-settings/src/epic_settings.c, a blob with its CRC-16 in EEPROM, over the record
-- `Driver` of what it calls of the EEPROM driver and the harness. Settings/Host fills it with Pic16/Eeprom and the
-- memory of the simulator, for the host build. Settings/Load and
-- RoundTrip are about loading and saving there.
--
-- Modbus: epic-modbus/src/epic_modbus.c, a slave with a register map. Modbus has the checksum, the bits
-- and words and the state; Modbus/Requests the handlers of the function codes, which return the tables
-- and the response; Modbus/Slave the check of a frame and epic_modbus_slave_poll, over the record
-- `Port`, which stands for what it calls of epic-serial, epic-tick and the pins. Modbus/Bits and Words
-- are about the loops, Tables about what the requests do to the tables, and Answers about what is sent.
--
-- AdcFilter: epic-adcfilter/src/epic_adcfilter.c, an oversampler over any source of samples, and a moving
-- average. AdcFilter/Window reads the samples off the buffer, and Average is about a push.
--
-- Lcd: epic-lcd/src/epic_lcd.c. An operation is the list of its calls of the transport. Lcd/Transport has
-- the three transports (epic_lcd_gpio4.c, epic_lcd_gpio8.c, epic_lcd_spi.c), as lists of pin writes and
-- of shifted bytes; Lcd/Strobes, Sent and Shift read these as a display would; Lcd/Display is about
-- the three switches and Lcd/Cursor about addresses.
--
-- Math: epic-math/src/host and epic-math/src/common, by Math/Sqrt, Bcd and Rand. Math/Newton, Decimal and
-- Period are about these. The square root takes the width of the C type unsigned as an argument.
--
-- Swuart and its children are epic-swuart/src/epic_swuart.c. Swuart has the two state machines and the
-- rings of a channel; Registry has the slots that EPIC_SWUART_Init and EPIC_SWUART_DeInit give out.
-- A match of a compare unit is a call of the handler; Transmit.matches lists the matches, which are what
-- the line shows, and Receive.receive has the levels of the pin at the samples as its argument. Line has
-- the level of a line at a time of Timer1, FrameLevels the levels of a frame, Hear the receiver that samples a
-- line at its own matches, and Loopback puts them together.
--
-- Console: epic-console/src/epic_console.c, over the rings of Serial. Edit has the line as a list of the
-- characters typed, Poll the loop, and Words the split of a line.
--
-- Bus: epic-bus/src/epic_bus.c, the transactions over any table of bus operations. Log has the bus as a
-- log, with a device that acknowledges and answers by what stood on it before.
--
-- The loops over tables and buffers are structural recursion. The loops that wait for hardware
-- run on fuel: one round for a full transmit ring, since a dispatch that lowers the count makes space;
-- as many rounds as bytes are queued for a flush; and none for the EEPROM of the host build, where a write is
-- complete at once. The reading of a running counter takes two rounds, since it carries once at most. The loop of `epic_tick_delay_ms` has a round for each cycle of its periods and one more. The loop of the square root runs at most as often as its argument, since the estimate falls.
--
-- A critical section is one step, since no interrupt runs inside it. Not modelled: the rest of
-- pic16f87xa-hal and the other device families (pic16f193x-hal, pic18fxx5x-hal), whose code writes
-- registers; epic-usb and the
-- storage stack of epic-sdcard, which are copies of other projects; the assembly of
-- epic-math for PIC16 and PIC18; and the default bus operations of epic-bus.
pub mod Common
pub mod Swuart
pub mod Console
pub mod Bus
pub mod Pic16
pub mod Tick
pub mod Debounce
pub mod Fsm
pub mod Encoder
pub mod Pid
pub mod Taskmgr
pub mod Ring
pub mod Serial
pub mod Settings
pub mod Modbus
pub mod AdcFilter
pub mod Lcd
pub mod Math
